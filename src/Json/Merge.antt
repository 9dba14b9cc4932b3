-- ===== src/Json/Merge.antt =====
-- crates/clash-prism-core/src/executor.rs: the recursive merge of JSON values, and the count of what
-- it changed.
pub mod Laws
pub mod Paths
use clash_prism_engine.Base.{
  ℕ, zero, suc, ◌+◌, String, Bool, true, false, not, ◌&&◌, Option, none, some, if◌then◌else◌, ltb,
  eqb, Eq, ◌==◌, string_eq,
}
use clash_prism_engine.Json.{
  Value, Items, Fields, null, bool, number, string, array, object, nil, cons, end, field, get_field,
  insert_field, is_object,
}

module _ {N : Type 0} where
  unfoldable mutual
    pub deep_merge_json : (base overlay : Value N) → Value N
    deep_merge_json base (object fs) = elim base [
      | object m ↦ object (merge_fields m fs)
      | _ ↦ object fs
    ]
    deep_merge_json base null = null
    deep_merge_json base (bool b) = bool b
    deep_merge_json base (number n) = number n
    deep_merge_json base (string s) = string s
    deep_merge_json base (array xs) = array xs

    -- The loop over the entries of the overlay.
    pub merge_fields : (base_obj overlay_obj : Fields N) → Fields N
    merge_fields m end = m
    merge_fields m (field k v fs) =
        merge_fields
          (elim (get_field k m) [
            | none ↦ insert_field k v m
            | some existing ↦ insert_field k (deep_merge_json existing v) m
          ])
          fs

  pub count_entries : Fields N → ℕ
  count_entries end = 0
  count_entries (field k v m) = suc (count_entries m)

  module _ ⦃e : Eq N⦄ where
    -- The derived equality of JSON values; maps are equal when they hold the same entries.
    unfoldable mutual
      pub value_beq : Value N → Value N → Bool
      value_beq null w = elim w [ null ↦ true | _ ↦ false ]
      value_beq (bool b) w = elim w [ bool c ↦ if b then c else not c | _ ↦ false ]
      value_beq (number n) w = elim w [ number k ↦ n == k | _ ↦ false ]
      value_beq (string s) w = elim w [ string t ↦ s == t | _ ↦ false ]
      value_beq (array xs) w = elim w [ array ys ↦ items_beq xs ys | _ ↦ false ]
      value_beq (object m) w = elim w [
        | object n ↦ fields_within m n && eqb (count_entries m) (count_entries n)
        | _ ↦ false
      ]

      pub items_beq : Items N → Items N → Bool
      items_beq nil ys = elim ys [ nil ↦ true | _ ↦ false ]
      items_beq (cons x xs) ys = elim ys [
        | cons y ys' ↦ value_beq x y && items_beq xs ys'
        | _ ↦ false
      ]

      pub fields_within : Fields N → Fields N → Bool
      fields_within end n = true
      fields_within (field k v m) n =
          elim (get_field k n) [ none ↦ false | some w ↦ value_beq v w ] && fields_within m n

    -- The numbers of keys that differ, and of all keys.
    unfoldable mutual
      pub count_merge_diff : (base merged : Value N) → ℕ × ℕ
      count_merge_diff base (object fs) = elim base [ object m ↦ count_fields m fs | _ ↦ (1, 1) ]
      count_merge_diff base null = if value_beq base null then (0, 0) else (1, 1)
      count_merge_diff base (bool b) = if value_beq base (bool b) then (0, 0) else (1, 1)
      count_merge_diff base (number n) = if value_beq base (number n) then (0, 0) else (1, 1)
      count_merge_diff base (string s) = if value_beq base (string s) then (0, 0) else (1, 1)
      count_merge_diff base (array xs) = if value_beq base (array xs) then (0, 0) else (1, 1)

      -- The loop over the entries of the merged object.
      pub count_fields : (base_obj merged_obj : Fields N) → ℕ × ℕ
      count_fields m end = (0, 0)
      count_fields m (field k v fs) =
          let rest = count_fields m fs in
          let entry : ℕ × ℕ = elim (get_field k m) [
            | none ↦ (1, 1)
            | some bv ↦
                let sub = count_merge_diff bv v in
                if is_object bv && is_object v
                then ((if ltb 0 sub.0 then 1 + sub.0 else sub.0), 1 + sub.1)
                else if value_beq bv v
                then (0, 1)
                else (1, 1)
          ] in
          (entry.0 + rest.0, entry.1 + rest.1)
