-- ===== src/Loader/Assets/Split.antt =====
-- The parts of the path of an asset.
use Prim.Native.Char.{Char, code}
use Prim.Native.String.{[], ◌∷◌, ◌++◌}
use text.Mathlib.TextLemmas.{nil-append, cons-append}
use text.Mathlib.TextEquality.{Char-path}
use bzr_live.Common.{
  ℕ, String, true, false, ◌≡◌, refl, sym, ◌∙◌, ap, List, [], ◌∷◌, ◌==◌, ==_iff, Bool-cases, inl,
  inr, arith, count_char, any_of, mem_text, ||-eq_false, eq_iff, All,
}
use bzr_live.Loader.Assets
use bzr_live.Loader.Assets.{split_all}

-- `sep.join(parts)`
unfoldable pub join_with : String → List String → String
join_with mid [] = ""
join_with mid (s ∷ []) = s
join_with mid (s ∷ t ∷ ts) = s ++ (mid ++ join_with mid (t ∷ ts))

join_with-before :
    (mid : String) (d : Char) (ss : List String)
    → join_with mid (Assets.before d ss) ≡ (d ∷ join_with mid ss)
unfolding join_with Assets.before
join_with-before mid d [] = refl
join_with-before mid d (s ∷ []) = refl
join_with-before mid d (s ∷ t ∷ ts) = cons-append d s (mid ++ join_with mid (t ∷ ts))

before-cons :
    (d : Char) (ss : List String)
    → (t : String) × (ts : List String) × (Assets.before d ss ≡ t ∷ ts)
unfolding Assets.before
before-cons d [] = (d ∷ [], [], refl)
before-cons d (s ∷ ss) = (d ∷ s, ss, refl)

-- there is always a part
split_all-cons : (c : ℕ) (s : String) → (t : String) × (ts : List String) × (split_all c s ≡ t ∷ ts)
unfolding split_all
split_all-cons c [] = ("", [], refl)
split_all-cons c (d ∷ s) = elim (Bool-cases (code d == c)) [
  | inl e ↦ ("", split_all c s, rw e)
  | inr e ↦ let (t, ts, p) = before-cons d (split_all c s) in (t, ts, rw (e, p))
]

-- an empty part in front
join_with-empty :
    (mid : Char) (rest : List String)
    → ((t : String) × (ts : List String) × (rest ≡ t ∷ ts))
    → join_with (mid ∷ "") ("" ∷ rest) ≡ (mid ∷ join_with (mid ∷ "") rest)
unfolding join_with
join_with-empty mid [] (t, ts, p) = cc
join_with-empty mid (t ∷ ts) p =
    let last = join_with (mid ∷ "") (t ∷ ts) in
    nil-append ((mid ∷ "") ++ last)
    ∙ (cons-append mid "" last ∙ ap (λ (s : String). mid ∷ s) (nil-append last))

join_with-split : (mid : Char) (s : String) → join_with (mid ∷ "") (split_all (code mid) s) ≡ s
unfolding split_all join_with
join_with-split mid [] = refl
join_with-split mid (d ∷ s) = elim (Bool-cases (code d == code mid)) [
  | inl e ↦
      let same = Char-path mid d (sym ((==_iff (code d) (code mid)).0 e)) in
      rw e (
        join_with-empty mid (split_all (code mid) s) (split_all-cons (code mid) s)
        ∙ (ap (λ (t : String). mid ∷ t) (join_with-split mid s) ∙ ap (λ (c : Char). c ∷ s) same))
  | inr e ↦ rw e (
      join_with-before (mid ∷ "") d (split_all (code mid) s)
      ∙ ap (λ (t : String). d ∷ t) (join_with-split mid s))
]

All-before :
    (c : ℕ) (d : Char) (ss : List String)
    → (code d == c) ≡ false
    → All (λ part. count_char c part ≡ 0) ss
    → All (λ part. count_char c part ≡ 0) (Assets.before d ss)
unfolding Assets.before count_char
All-before c d [] e h = (rw e, tt)
All-before c d (s ∷ ss) e (p, rest) = (rw (e, p), rest)

split_all-clean : (c : ℕ) (s : String) → All (λ part. count_char c part ≡ 0) (split_all c s)
unfolding split_all count_char
split_all-clean c [] = (refl, tt)
split_all-clean c (d ∷ s) = elim (Bool-cases (code d == c)) [
  | inl e ↦ rw e (refl, split_all-clean c s)
  | inr e ↦ rw e (All-before c d (split_all c s) e (split_all-clean c s))
]

-- a name that stays below its directory
pub record IsPart (part : String) : Type 0 where
  pub no_slash : count_char b'/' part ≡ 0
  pub no_dots : mem_text part ("" ∷ "." ∷ ".." ∷ []) ≡ false

AllIsPart :
    (parts : List String)
    → any_of Assets.is_dots parts ≡ false
    → All (λ part. count_char b'/' part ≡ 0) parts
    → All IsPart parts
AllIsPart [] h k = tt
AllIsPart (p ∷ ps) h (clean, rest) =
    let (here, later) = ||-eq_false (Assets.is_dots p) (any_of Assets.is_dots ps) h in
    (record { no_slash = clean; no_dots = here }, AllIsPart ps later rest)

parts_below :
    (parts : List String)
    → Assets.below_assets parts ≡ true
    → any_of Assets.is_dots parts ≡ false
    → All (λ part. count_char b'/' part ≡ 0) parts
    → (first : String) × (rest : List String) × (parts ≡ "assets" ∷ first ∷ rest)
      × All IsPart (first ∷ rest)
unfolding Assets.below_assets
parts_below [] h k clean = cc
parts_below (a ∷ []) h k clean = cc
parts_below (a ∷ first ∷ rest) h k (_, clean) =
    let (_, later) = ||-eq_false (Assets.is_dots a) (any_of Assets.is_dots (first ∷ rest)) k in
    (
      first,
      rest,
      ap (λ (t : String). t ∷ first ∷ rest) ((eq_iff a "assets").0 h),
      AllIsPart (first ∷ rest) later clean,
    )

-- the tests on the parts
path_parts :
    (path : String)
    → Assets.is_asset_path path ≡ true
    → (Assets.below_assets (split_all b'/' path) ≡ true)
      × (any_of Assets.is_dots (split_all b'/' path) ≡ false)
unfolding Assets.is_asset_path
path_parts path h = ground (arith, h)

joined :
    (path : String) (parts : List String)
    → join_with "/" parts ≡ path
    → ((first : String) × (rest : List String) × (parts ≡ "assets" ∷ first ∷ rest)
        × All IsPart (first ∷ rest))
    → (first : String) × (rest : List String) × (path ≡ join_with "/" ("assets" ∷ first ∷ rest))
      × All IsPart (first ∷ rest)
joined path parts whole (first, rest, e, all) =
    (first, rest, sym whole ∙ ap (λ ps. join_with "/" ps) e, all)

-- A path that is taken for an asset is `assets`, and one or more names below it, joined by slashes;
-- none of these names holds a slash, is empty, or is one dot or two.
pub is_asset_path-below :
    (path : String)
    → Assets.is_asset_path path ≡ true
    → (first : String) × (rest : List String) × (path ≡ join_with "/" ("assets" ∷ first ∷ rest))
      × All IsPart (first ∷ rest)
is_asset_path-below path h =
    let (below, plain) = path_parts path h in
    joined path (split_all b'/' path) (join_with-split "/" path)
      (parts_below (split_all b'/' path) below plain (split_all-clean b'/' path))
