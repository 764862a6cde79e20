-- ===== src/Tags/Values/Sort.antt =====
-- `sort.Slice` of Go's standard library, with the order of tags/values_bytes.go and tags/tag_set.go: by
-- the names of the keys. The library promises a permutation in order; this is one way to make it.
use mathlib.Core.List.{Perm}
use mathlib.Core.List.Perm
use instrumentation_go.Base.{
  ◌≡◌, refl, Bool, true, false, ◌||◌, ◌&&◌, List, [], ◌∷◌, Bytes, ltb, eqb, if◌then◌else◌, arith,
  inl, inr, Bool-cases,
}
use instrumentation_go.Tags.Key.{name_of}
use instrumentation_go.Tags.TagSet.{Tag}

-- `<` on strings.
abbrev pub string_ltb : Bytes → Bytes → Bool
string_ltb [] [] = false
string_ltb [] (y ∷ ys) = true
string_ltb (x ∷ xs) [] = false
string_ltb (x ∷ xs) (y ∷ ys) = ltb x y || (eqb x y && string_ltb xs ys)

abbrev pub less : Tag → Tag → Bool
less s t = string_ltb (name_of s.key) (name_of t.key)

unfoldable pub insert_by_name : Tag → List Tag → List Tag
insert_by_name t [] = t ∷ []
insert_by_name t (s ∷ ss) = if less s t then s ∷ insert_by_name t ss else t ∷ (s ∷ ss)

unfoldable pub sort_by_name : List Tag → List Tag
unfolding insert_by_name
sort_by_name [] = []
sort_by_name (t ∷ ts) = insert_by_name t (sort_by_name ts)

-- No tag comes before one with a smaller name.
abbrev pub IsSorted : List Tag → Type 0
IsSorted [] = Unit {0}
IsSorted (t ∷ []) = Unit {0}
IsSorted (t ∷ (s ∷ ss)) = (less s t ≡ false) × IsSorted (s ∷ ss)

string_ltb_asymm : (xs ys : Bytes) → string_ltb xs ys ≡ true → string_ltb ys xs ≡ false
string_ltb_asymm [] [] h = refl
string_ltb_asymm [] (y ∷ ys) h = refl
string_ltb_asymm (x ∷ xs) [] h = cc
string_ltb_asymm (x ∷ xs) (y ∷ ys) h = ground (arith, string_ltb_asymm xs ys)

insert_by_name-IsSorted : (t : Tag) (ts : List Tag) → IsSorted ts → IsSorted (insert_by_name t ts)
unfolding insert_by_name
insert_by_name-IsSorted t [] h = tt
insert_by_name-IsSorted t (s ∷ []) h =
    ground (arith, string_ltb_asymm (name_of s.key) (name_of t.key))
insert_by_name-IsSorted t (s ∷ (r ∷ rs)) h = ground (
  arith,
  string_ltb_asymm (name_of s.key) (name_of t.key),
  insert_by_name-IsSorted t (r ∷ rs) h.1,
)

pub sort_by_name-IsSorted : (ts : List Tag) → IsSorted (sort_by_name ts)
unfolding sort_by_name
sort_by_name-IsSorted [] = tt
sort_by_name-IsSorted (t ∷ ts) =
    insert_by_name-IsSorted t (sort_by_name ts) (sort_by_name-IsSorted ts)

insert_by_name-perm : (t : Tag) (ts : List Tag) → Perm (insert_by_name t ts) (t ∷ ts)
unfolding insert_by_name
insert_by_name-perm t [] = Perm.refl (t ∷ [])
insert_by_name-perm t (s ∷ ss) = elim (Bool-cases (less s t)) [
  | inl before ↦ rw before (Perm.trans (Perm.cons s (insert_by_name-perm t ss)) (Perm.swap t s ss))
  | inr after ↦ rw after (Perm.refl (t ∷ (s ∷ ss)))
]

pub sort_by_name-perm : (ts : List Tag) → Perm (sort_by_name ts) ts
unfolding sort_by_name
sort_by_name-perm [] = Perm.refl []
sort_by_name-perm (t ∷ ts) =
    Perm.trans (insert_by_name-perm t (sort_by_name ts)) (Perm.cons t (sort_by_name-perm ts))
