-- ===== src/Ir/Composite.antt =====
-- The operations of a composite patch: in which order they run, and that an override runs alone.
use clash_prism_engine.Base.{
  ◌≤◌, ◌≡◌, refl, true, false, ◌&&◌, List, [], ◌∷◌, arith, ltb, if◌then◌else◌, length, ok, err,
  Bool-cases, inl, inr, ◌↔◌,
}
use clash_prism_engine.Base.Sorting.{sort_by_key, insert_by_key, length-sort_by_key}
use clash_prism_engine.Ir.{
  SubOp, Patch, with_sub_ops, all_ops, any_override, is_override, order_of, override_conflict,
  ordered_parts,
}

module _ {ℓ} {V : Type ℓ} where
  any_override-insert_by_key :
      (s : SubOp V) (ss : List (SubOp V))
      → any_override (insert_by_key order_of s ss)
        ≡ (if is_override s.op then true else any_override ss)
  unfolding any_override insert_by_key
  any_override-insert_by_key s [] = refl
  any_override-insert_by_key s (t ∷ ts) = ground (arith, any_override-insert_by_key s ts)

  any_override-sort_by_key :
      (ss : List (SubOp V)) → any_override (sort_by_key order_of ss) ≡ any_override ss
  unfolding any_override sort_by_key
  any_override-sort_by_key [] = refl
  any_override-sort_by_key (s ∷ ss) =
      ground
        (arith, any_override-insert_by_key s (sort_by_key order_of ss), any_override-sort_by_key ss)

  lone_override :
      (primary : SubOp V) (ss : List (SubOp V))
      → (any_override ss && ltb 1 (length ss)) ≡ false
      → any_override (ordered_parts primary ss) ≡ true
      → length (ordered_parts primary ss) ≡ 1
  unfolding ordered_parts any_override
  lone_override primary [] h e = refl
  lone_override primary (s ∷ ss) h e =
      ground (arith, any_override-sort_by_key (s ∷ ss), length-sort_by_key order_of (s ∷ ss))

  -- Parts that `with_sub_ops` lets through keep an override alone: if one of the operations of the
  -- patch is an override, it is the only one. Parts are refused exactly when an override is among
  -- several, and a patch that is let through has all of them.
  pub with_sub_ops_lem :
      (p : Patch V) (ss : List (SubOp V))
      → ((q : Patch V)
          → with_sub_ops p ss ≡ ok q
          → (q.sub_ops ≡ ss) × (any_override (all_ops q) ≡ true → length (all_ops q) ≡ 1))
        × ((with_sub_ops p ss ≡ err (override_conflict p.path))
            ↔ ((any_override ss ≡ true) × (2 ≤ length ss)))
  unfolding with_sub_ops all_ops
  with_sub_ops_lem p ss = elim (Bool-cases (any_override ss && ltb 1 (length ss))) [
    | inl bad ↦ (λ q e. absurd (ground arith), ground arith)
    | inr fine ↦ (
      λ q e.
          let same : q ≡ record p { sub_ops = ss } = ground arith in
          rw (same) (refl, lone_override (record { op = p.op; value = p.value }) ss fine),
      ground arith,
    )
  ]
