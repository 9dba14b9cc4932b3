-- ===== src/Trace/Manager.antt =====
-- crates/clash-prism-core/src/trace.rs: the manager of traces and their patches, and its queries.
pub mod Lookup
use clash_prism_engine.Base.{
  ℕ, zero, suc, ◌+◌, String, Bool, true, false, ◌&&◌, ◌||◌, Option, none, some, List, [], ◌∷◌, ◌++◌,
  if◌then◌else◌, ltb, eqb, length, take, Outcome, ok, err, string_eq, ◌==◌,
}
use Prim.Native.String
use Prim.Native.String.{compare}
use Prim.Native.Nat.{Ordering}
use text.Mathlib.Text.{starts_with}
use clash_prism_engine.Base.Text.{decimal}
use clash_prism_engine.Base.HashMap.{HashMap, insert, get}
use clash_prism_engine.Json.Path.{split}
use clash_prism_engine.Ir.{PatchId, PatchSource, PatchOp, Patch, display_name}
use clash_prism_engine.Trace.{AffectedItem, ExecutionTrace}

pub record TraceManager (V : Type 0) : Type 0 where
  pub traces : List ExecutionTrace
  pub patches : List (Patch V)
  pub patch_index : HashMap PatchId ℕ

pub data ImportError : Type 0 where
  lengths_differ : (traces patches : ℕ) → ImportError

pub record ExplainEntry : Type 0 where
  pub source : PatchSource
  pub op_name : String
  pub detail : String

-- A text is another one or stands below it: `a == b || a.starts_with(b + ".")`.
pub is_at_or_below : String → String → Bool
is_at_or_below a b = (a == b) || starts_with a (String.◌++◌ b ".")

pub text_meets : String → Option String → Bool
text_meets key none = false
text_meets key (some s) = is_at_or_below s key

-- The check of `explain_field` for the key of an item.
pub any_item : String → List AffectedItem → Bool
any_item key [] = false
any_item key (item ∷ items) =
    text_meets key item.before || text_meets key item.after || any_item key items

pub concat : List String → String
concat [] = ""
concat (s ∷ ss) = String.◌++◌ s (concat ss)

pub describe_change : ExecutionTrace → String
describe_change t = concat (
    display_name t.op
    ∷ " — +"
    ∷ decimal t.summary.added
    ∷ " -"
    ∷ decimal t.summary.removed
    ∷ " ~"
    ∷ decimal t.summary.modified
    ∷ " ("
    ∷ decimal t.duration_us
    ∷ "μs)"
    ∷ [])

pub segments_beq : List String → List String → Bool
segments_beq [] [] = true
segments_beq (x ∷ xs) (y ∷ ys) = (x == y) && segments_beq xs ys
segments_beq _ _ = false

-- A path is another one, or one stands above the other, by their parts.
pub are_related : (patch_path path : String) → Bool
are_related patch_path path =
    let ps = split patch_path in
    let qs = split path in
    (patch_path == path)
    || (ltb (length ps) (length qs) && segments_beq (take (length ps) qs) ps)
    || (ltb (length qs) (length ps) && segments_beq (take (length qs) ps) qs)

pub explain_entry : ExecutionTrace → ExplainEntry
explain_entry t = record {
  source = t.source;
  op_name = display_name t.op;
  detail = describe_change t;
}

-- Insertion into a `BTreeSet` of texts, in the order of the texts.
pub insert_text : String → List String → List String
insert_text s [] = s ∷ []
insert_text s (t ∷ ts) =
    let rest = insert_text s ts in
    elim (compare s t) [ Ordering.lt ↦ s ∷ t ∷ ts | Ordering.eq ↦ t ∷ ts | Ordering.gt ↦ t ∷ rest ]

module _ {V : Type 0} where
  pub new : TraceManager V
  new = record { traces = []; patches = []; patch_index = [] }

  pub push : TraceManager V → ExecutionTrace → Patch V → TraceManager V
  push m trace patch = record {
    traces = m.traces ++ trace ∷ [];
    patches = m.patches ++ patch ∷ [];
    patch_index = insert patch.id (length m.patches) m.patch_index;
  }

  -- The pairs of a patch's identifier and its index, collected into a map.
  pub index_from : ℕ → List (Patch V) → HashMap PatchId ℕ → HashMap PatchId ℕ
  index_from i [] index = index
  index_from i (p ∷ ps) index = index_from (suc i) ps (insert p.id i index)

  pub import_all :
      TraceManager V → List ExecutionTrace → List (Patch V) → Outcome (TraceManager V) ImportError
  import_all m traces patches =
      if eqb (length traces) (length patches)
      then ok (record { traces = traces; patches = patches; patch_index = index_from 0 patches [] })
      else err (lengths_differ (length traces) (length patches))

  -- The patch at an index; an index out of range is a panic, here no patch.
  pub patch_at : List (Patch V) → ℕ → Option (Patch V)
  patch_at [] i = none
  patch_at (p ∷ ps) zero = some p
  patch_at (p ∷ ps) (suc i) = patch_at ps i

  -- The patch that the index has for an identifier.
  pub indexed_patch : TraceManager V → PatchId → Option (Patch V)
  indexed_patch m id = elim (get id m.patch_index) [ none ↦ none | some i ↦ patch_at m.patches i ]

  pub trace_affects_path : TraceManager V → ExecutionTrace → String → Bool
  trace_affects_path m trace path = elim (indexed_patch m trace.patch_id) [
    | none ↦ false
    | some patch ↦ are_related patch.path path
  ]

  pub is_explained : TraceManager V → String → Option String → ExecutionTrace → Bool
  is_explained m path item_key t =
      t.condition_matched
      && elim t.source.file [ none ↦ false | some _ ↦ true ]
      && trace_affects_path m t path
      && elim item_key [ none ↦ true | some key ↦ any_item key t.affected_items ]

  pub explain_traces :
      TraceManager V → String → Option String → List ExecutionTrace → List ExplainEntry
  explain_traces m path item_key [] = []
  explain_traces m path item_key (t ∷ ts) =
      let rest = explain_traces m path item_key ts in
      if is_explained m path item_key t then explain_entry t ∷ rest else rest

  pub explain_field : TraceManager V → String → Option String → List ExplainEntry
  explain_field m path item_key = explain_traces m path item_key m.traces

  pub paths_of : List (Patch V) → List String → List String
  paths_of [] paths = paths
  paths_of (p ∷ ps) paths = paths_of ps (insert_text p.path paths)

  pub affected_paths : TraceManager V → List String
  affected_paths m = paths_of m.patches []
