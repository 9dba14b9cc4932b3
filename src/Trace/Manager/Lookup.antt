-- ===== src/Trace/Manager/Lookup.antt =====
-- The index of the manager leads from each trace to a patch of its identifier.
use clash_prism_engine.Base.{
  ℕ, zero, suc, ◌+◌, Option, none, some, List, [], ◌∷◌, ◌++◌, if◌then◌else◌, eqb, length,
  length-append, Outcome, ok, err, string_eq, ◌==◌, eq_iff, ◌≡◌, ◌≢◌, refl, arith, ap, Option-cases,
  Bool-cases, inl, inr, eqb_iff,
}
use clash_prism_engine.Base.HashMap.{HashMap, insert, get, get-insert}
use clash_prism_engine.Ir.{PatchId, Patch}
use clash_prism_engine.Trace.{ExecutionTrace}
use clash_prism_engine.Trace.Manager.{
  TraceManager, push, index_from, import_all, ImportError, lengths_differ, patch_at, indexed_patch,
}

module _ {V : Type 0} where
  -- Where the last patch with an identifier stands, counted from a number on.
  unfoldable pub last_index : ℕ → PatchId → List (Patch V) → Option ℕ
  last_index i id [] = none
  last_index i id (p ∷ ps) = elim (last_index (suc i) id ps) [
    | some j ↦ some j
    | none ↦ if p.id == id then some i else none
  ]

  -- As many traces as patches, and an index that leads to the last patch with each identifier.
  abbrev pub IsIndexed : TraceManager V → Type 0
  IsIndexed m =
      (length m.traces ≡ length m.patches)
      × ((id : PatchId) → get id m.patch_index ≡ last_index 0 id m.patches)

  last_index-append :
      (i : ℕ) (id : PatchId) (ps : List (Patch V)) (p : Patch V)
      → last_index i id (ps ++ p ∷ [])
        ≡ (if p.id == id then some (i + length ps) else last_index i id ps)
  unfolding last_index
  last_index-append i id [] p = ap (λ k. if p.id == id then some k else none) (omega arith)
  last_index-append i id (q ∷ ps) p = elim (Bool-cases (p.id == id)) [
    | inl e ↦ ground (arith, e, last_index-append (suc i) id ps p)
    | inr e ↦ ground (arith, e, last_index-append (suc i) id ps p)
  ]

  push-IsIndexed :
      (m : TraceManager V) (t : ExecutionTrace) (p : Patch V) → IsIndexed m → IsIndexed (push m t p)
  unfolding push
  push-IsIndexed m t p (same, lookup) = (
    omega (arith, same, length-append m.traces (t ∷ []), length-append m.patches (p ∷ [])),
    λ id. ground (
      arith,
      get-insert p.id id (length m.patches) m.patch_index,
      lookup id,
      last_index-append 0 id m.patches p,
    ),
  )

  get-index_from :
      (i : ℕ) (ps : List (Patch V)) (index : HashMap PatchId ℕ) (id : PatchId)
      → get id (index_from i ps index)
        ≡ elim (last_index i id ps) [ none ↦ get id index | some j ↦ some j ]
  unfolding index_from last_index
  get-index_from i [] index id = refl
  get-index_from i (p ∷ ps) index id =
      ground (arith, get-index_from (suc i) ps (insert p.id i index) id, get-insert p.id id i index)

  patch_at-last_index :
      (i : ℕ) (id : PatchId) (ps : List (Patch V)) (j : ℕ)
      → last_index i id ps ≡ some j
      → (k : ℕ) × (p : Patch V) × (j ≡ i + k) × (patch_at ps k ≡ some p) × (p.id ≡ id)
  unfolding last_index patch_at
  patch_at-last_index i id [] j h = absurd (ground arith)
  patch_at-last_index i id (q ∷ ps) j h = elim (Option-cases (last_index (suc i) id ps)) [
    | inr (n, e) ↦
        let (k, p, at, there, same) = patch_at-last_index (suc i) id ps n e in
        (suc k, p, ground (arith, e, at), there, same)
    | inl e ↦ (0, q, ground (arith, e), refl, ground (arith, e, eq_iff q.id id))
  ]

  patch_at-append :
      (ps : List (Patch V)) (p q : Patch V) (k : ℕ)
      → patch_at ps k ≡ some q
      → patch_at (ps ++ p ∷ []) k ≡ some q
  unfolding patch_at
  patch_at-append [] p q k h = absurd (ground arith)
  patch_at-append (x ∷ ps) p q zero h = h
  patch_at-append (x ∷ ps) p q (suc k) h = patch_at-append ps p q k h

  patch_at-last : (ps : List (Patch V)) (p : Patch V) → patch_at (ps ++ p ∷ []) (length ps) ≡ some p
  unfolding patch_at
  patch_at-last [] p = refl
  patch_at-last (x ∷ ps) p = patch_at-last ps p

  -- A manager stays indexed when a trace and its patch are pushed. An identifier then leads to the
  -- new patch where it is that patch's own, and else to the patch it led to before.
  pub push_lem :
      (m : TraceManager V) (t : ExecutionTrace) (p : Patch V) (id : PatchId)
      → IsIndexed m
      → IsIndexed (push m t p)
        × (indexed_patch (push m t p) id ≡ (if p.id == id then some p else indexed_patch m id))
  unfolding push indexed_patch
  push_lem m t p id h =
      let get_new = get-insert p.id id (length m.patches) m.patch_index in
      (
        push-IsIndexed m t p h,
        elim (Bool-cases (p.id == id)) [
          | inl e ↦ ground (arith, e, get_new, patch_at-last m.patches p)
          | inr e ↦ elim (Option-cases (last_index 0 id m.patches)) [
            | inl x ↦ ground (arith, e, get_new, h.1 id, x)
            | inr (j, x) ↦
                let (k, q, at, there, _) = patch_at-last_index 0 id m.patches j x in
                let here : k ≡ j = omega (arith, at) in
                ground
                  (arith, e, get_new, h.1 id, x, here, there, patch_at-append m.patches p q k there)
          ]
        ],
      )

  -- The outcomes of an import.
  abbrev pub IsImported :
      List ExecutionTrace → List (Patch V) → Outcome (TraceManager V) ImportError → Type 0
  IsImported ts ps (ok m) = (m.traces ≡ ts) × (m.patches ≡ ps) × IsIndexed m
  IsImported ts ps (err e) = (e ≡ lengths_differ (length ts) (length ps)) × (length ts ≢ length ps)

  -- An import gives an indexed manager of the traces and patches, and fails where their numbers
  -- differ.
  pub import_all_lem :
      (m : TraceManager V) (ts : List ExecutionTrace) (ps : List (Patch V))
      → IsImported ts ps (import_all m ts ps)
  unfolding import_all get
  import_all_lem m ts ps = elim (Bool-cases (eqb (length ts) (length ps))) [
    | inr e ↦ rw e (refl, λ h. absurd (ground (arith, e, eqb_iff (length ts) (length ps))))
    | inl e ↦
        let lookup : (i : PatchId) → get i (index_from 0 ps []) ≡ last_index 0 i ps = λ i.
          elim (Option-cases (last_index 0 i ps)) [
            | inl x ↦ ground (arith, x, get-index_from 0 ps [] i)
            | inr (j, x) ↦ ground (arith, x, get-index_from 0 ps [] i)
          ] in
        rw e (refl, refl, ((eqb_iff (length ts) (length ps)).0 e, lookup))
  ]
