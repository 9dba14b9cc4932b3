-- ===== src/Executor/Expr/Scan/Balanced.antt =====
-- crates/clash-prism-core/src/executor/expr.rs: texts whose strings and parentheses are closed, which
-- the searches pass over when parentheses stand around them.
use Prim.Native.Char.{Char}
use clash_prism_engine.Base.{
  ℕ, zero, suc, ◌+◌, ◌-◌, Bool, true, false, not, ◌&&◌, Option, none, some, List, [], ◌∷◌, ◌++◌,
  ◌≡◌, refl, ap, sym, subst, arith, length, if◌then◌else◌, eqb,
}
use clash_prism_engine.Base.Text.{is_char}
use clash_prism_engine.Executor.Expr.Scan.{
  next_position, Quote, no_quote, in_string, is_quote, is_plain, read_quote, count, Level,
  read_level, is_top, find_at, push_before, split_close,
}

-- The parentheses still open behind a character.
abbrev pub depth_after : Quote → Char → ℕ → ℕ
depth_after q c n =
    if is_plain q c && is_char 41 c then n - 1 else count (is_plain q c && is_char 40 c) n

-- Every string is closed, and so is every parenthesis, with `n` more that are open before.
unfoldable pub is_balanced : Quote → ℕ → List Char → Bool
is_balanced q n [] = not (q.escaped) && not (in_string q) && eqb n 0
is_balanced q n (c ∷ cs) =
    not (is_plain q c && is_char 41 c && eqb n 0)
    && is_balanced (read_quote q c) (depth_after q c n) cs

abbrev pub IsBalanced : List Char → Type 0
IsBalanced cs = is_balanced no_quote 0 cs ≡ true

abbrev pub closing : Char
closing = ")"

quote_end :
    (s : Option Char) (e : Bool) (n : ℕ)
    → is_balanced (record { string_char = s; escaped = e }) n [] ≡ true
    → (◌≡◌ {A = Quote} (record { string_char = s; escaped = e }) no_quote) × (n ≡ 0)
unfolding is_balanced in_string
quote_end none false n h = (refl, ground (arith, h))
quote_end none true n h = absurd (ground (arith, h))
quote_end (some c) e n h = absurd (ground (arith, h))

pub balanced_end : (q : Quote) (n : ℕ) → is_balanced q n [] ≡ true → (q ≡ no_quote) × (n ≡ 0)
balanced_end q n h = quote_end (q.string_char) (q.escaped) n h

closes_here :
    (rest : List Char) → split_close read_quote no_quote 0 (closing ∷ rest) ≡ some ([], rest)
unfolding split_close is_plain is_char is_quote in_string
closes_here rest = refl

pub split_close_balanced :
    (q : Quote) (n : ℕ) (cs rest : List Char)
    → is_balanced q n cs ≡ true
    → split_close read_quote q n (cs ++ closing ∷ rest) ≡ some (cs, rest)
unfolding split_close is_balanced push_before
split_close_balanced q n [] rest h =
    let (same, none_open) = balanced_end q n h in
    subst (λ r. split_close read_quote r n (closing ∷ rest) ≡ some ([], rest)) (sym same)
      (subst (λ m. split_close read_quote no_quote m (closing ∷ rest) ≡ some ([], rest))
        (sym none_open) (closes_here rest))
split_close_balanced q n (c ∷ cs) rest h =
    let other : (is_plain q c && is_char 41 c && eqb n 0) ≡ false = ground (arith, h) in
    let below : is_balanced (read_quote q c) (depth_after q c n) cs ≡ true = ground (arith, h) in
    rw (other, split_close_balanced (read_quote q c) (depth_after q c n) cs rest below) refl

abbrev pub level : Quote → ℕ → ℕ → Level
level q opened closed = record { quote = q; opened = opened; closed = closed }

read_closing :
    (n : ℕ)
    → read_level (is_char 40) (is_char 41) (level no_quote (suc n) n) closing
      ≡ level no_quote (suc n) (suc n)
unfolding read_level read_quote is_plain is_quote in_string is_char count
read_closing n = refl

depth_below :
    (q : Quote) (c : Char) (n opened closed : ℕ)
    → opened ≡ closed + suc n
    → (is_plain q c && is_char 41 c && eqb n 0) ≡ false
    → count (is_plain q c && is_char 40 c) opened
      ≡ count (is_plain q c && is_char 41 c) closed + suc (depth_after q c n)
unfolding count is_char
depth_below q c zero opened closed e h = ground (arith, e, h)
depth_below q c (suc n) opened closed e h = ground (arith, e, h)

depth_append :
    (q : Quote) (c : Char) (n m : ℕ)
    → (is_plain q c && is_char 41 c && eqb n 0) ≡ false
    → depth_after q c (n + m) ≡ depth_after q c n + m
unfolding count
depth_append q c zero m h = ground (arith, h)
depth_append q c (suc n) m h = ground (arith, h)

is_balanced-append :
    (q : Quote) (n m : ℕ) (s t : List Char)
    → is_balanced q n s ≡ true
    → is_balanced no_quote m t ≡ true
    → is_balanced q (n + m) (s ++ t) ≡ true
unfolding is_balanced
is_balanced-append q n m [] t hs ht =
    let (same, none_open) = balanced_end q n hs in
    subst (λ r. is_balanced r (n + m) t ≡ true) (sym same)
      (subst (λ k. is_balanced no_quote k t ≡ true) (omega (arith, none_open)) ht)
is_balanced-append q n m (c ∷ s) t hs ht =
    let other : (is_plain q c && is_char 41 c && eqb n 0) ≡ false = ground (arith, hs) in
    let still : (is_plain q c && is_char 41 c && eqb (n + m) 0) ≡ false = ground (arith, other) in
    let below : is_balanced (read_quote q c) (depth_after q c n) s ≡ true = ground (arith, hs) in
    rw (still, depth_append q c n m other)
      (is_balanced-append (read_quote q c) (depth_after q c n) m s t below ht)

-- A closing parenthesis behind a text.
pub closed_after :
    (f rest : List Char)
    → IsBalanced f
    → is_balanced no_quote 1 (closing ∷ rest) ≡ true
    → is_balanced no_quote 1 (f ++ closing ∷ rest) ≡ true
closed_after f rest hf = is_balanced-append no_quote 0 1 f (closing ∷ rest) hf

-- A number of positions further on.
unfoldable pub shift : ℕ → Option ℕ → Option ℕ
shift zero o = o
shift (suc n) o = next_position (shift n o)

module _ (test : Level → Option Char → List Char → Bool)
    (on_top : (l : Level) (prev : Option Char) (cs : List Char)
      → is_top l ≡ false
      → test l prev cs ≡ false) where
  -- The search behind the closing parenthesis of a balanced text.
  abbrev pub GoesOn : Option ℕ → ℕ → List Char → Type 0
  GoesOn o n rest = (m : ℕ) × (o ≡ shift n (find_at test (level no_quote m m) (some closing) rest))

  pub find_at_balanced :
      (q : Quote) (n opened closed : ℕ) (prev : Option Char) (cs rest : List Char)
      → is_balanced q n cs ≡ true
      → opened ≡ closed + suc n
      → GoesOn
          (find_at test (level q opened closed) prev (cs ++ closing ∷ rest))
          (suc (length cs))
          rest
  unfolding find_at shift is_balanced is_top read_level
  find_at_balanced q n opened closed prev [] rest h e =
      let (same, none_open) = balanced_end q n h in
      let inside : is_top (level q opened closed) ≡ false = ground (arith, e) in
      let next : opened ≡ suc closed = omega (arith, e, none_open) in
      (
        suc closed,
        rw (on_top (level q opened closed) prev (closing ∷ rest) inside, same, next)
            (ap (λ l. next_position (find_at test l (some closing) rest)) (read_closing closed)),
      )
  find_at_balanced q n opened closed prev (c ∷ cs) rest h e =
      let inside : is_top (level q opened closed) ≡ false = ground (arith, e) in
      let below : is_balanced (read_quote q c) (depth_after q c n) cs ≡ true = ground (arith, h) in
      let o = count (is_plain q c && is_char 40 c) opened in
      let k = count (is_plain q c && is_char 41 c) closed in
      let level_below : o ≡ k + suc (depth_after q c n) =
        depth_below q c n opened closed e (ground (arith, h)) in
      let (m, found) =
        find_at_balanced (read_quote q c) (depth_after q c n) o k (some c) cs rest below
          level_below in
      (
        m,
        rw (on_top (level q opened closed) prev (c ∷ (cs ++ closing ∷ rest)) inside)
            (ap next_position found),
      )
