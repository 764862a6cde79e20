-- ===== src/Grpc/Method/Laws.antt =====
-- Which names of methods the two TagRPC of plugins/grpc/stats accept.
use instrumentation_go.Base.{
  ℕ, ◌≡◌, ◌≢◌, ◌↔◌, ◌∙◌, subst, refl, ap, sym, false, List, [], ◌∷◌, ◌++◌, some, Bytes, eqb,
  eqb_iff, All, inl, inr, Bool-cases, arith,
}
use instrumentation_go.Grpc.Method.{slash, split, to_first, second_and_third, service_and_method}

-- The separator does not occur.
abbrev pub IsFree : ℕ → Bytes → Type 0
IsFree sep = All (λ x. eqb x sep ≡ false)

abbrev join : ℕ → List Bytes → Bytes
join sep [] = []
join sep (part ∷ []) = part
join sep (part ∷ next ∷ parts) = part ++ sep ∷ join sep (next ∷ parts)

split-IsFree : (sep : ℕ) (xs : Bytes) → All (IsFree sep) (split sep xs)
unfolding split
split-IsFree sep [] = (tt, tt)
split-IsFree sep (x ∷ xs) = ground (arith, split-IsFree sep xs)

split-nonempty : (sep : ℕ) (xs : Bytes) → split sep xs ≢ []
unfolding split
split-nonempty sep [] = λ h. cc
split-nonempty sep (x ∷ xs) = elim (split sep xs) [
  | [] ↦ λ h. ground arith
  | part ∷ parts ↦ λ h. ground arith
]

join-to_first :
    (sep x : ℕ) (parts : List Bytes) → parts ≢ [] → join sep (to_first x parts) ≡ x ∷ join sep parts
join-to_first sep x [] h = absurd (h refl)
join-to_first sep x (part ∷ []) h = refl
join-to_first sep x (part ∷ next ∷ parts) h = refl

join-empty :
    (sep : ℕ) (parts : List Bytes) → parts ≢ [] → join sep ([] ∷ parts) ≡ sep ∷ join sep parts
join-empty sep [] h = absurd (h refl)
join-empty sep (part ∷ parts) h = refl

join-split : (sep : ℕ) (xs : Bytes) → join sep (split sep xs) ≡ xs
unfolding split
join-split sep [] = refl
join-split sep (x ∷ xs) = elim (Bool-cases (eqb x sep)) [
  | inl same ↦
      rw
        (
          same,
          join-empty sep (split sep xs) (split-nonempty sep xs),
          join-split sep xs,
          (eqb_iff x sep).0 same,
        )
        refl
  | inr other ↦
      rw (other, join-to_first sep x (split sep xs) (split-nonempty sep xs), join-split sep xs) refl
]

split-free : (sep : ℕ) (xs : Bytes) → IsFree sep xs → split sep xs ≡ xs ∷ []
unfolding split
split-free sep [] h = refl
split-free sep (x ∷ xs) (h, hs) = rw (h, split-free sep xs hs) refl

split-append :
    (sep : ℕ) (xs ys : Bytes) → IsFree sep xs → split sep (xs ++ sep ∷ ys) ≡ xs ∷ split sep ys
unfolding split
split-append sep [] ys h = ground (arith, eqb_iff sep sep)
split-append sep (x ∷ xs) ys (h, hs) = rw (h, split-append sep xs ys hs) refl

three_parts :
    (parts : List Bytes) (service method : Bytes)
    → second_and_third parts ≡ some (service, method)
    → (a : Bytes) × (parts ≡ a ∷ service ∷ method ∷ [])
three_parts [] s m h = cc
three_parts (a ∷ []) s m h = cc
three_parts (a ∷ b ∷ []) s m h = cc
three_parts (a ∷ b ∷ c ∷ []) s m h = (a, ground arith)
three_parts (a ∷ b ∷ c ∷ d ∷ parts) s m h = cc

-- The full name of a method is taken apart into a service and a method exactly if it is some text, a
-- slash, the service, a slash and the method, none of the three having a slash itself.
pub service_and_method_iff :
    (full_method_name service method : Bytes)
    → (service_and_method full_method_name ≡ some (service, method)) ↔ (
        (a : Bytes) × (full_method_name ≡ a ++ slash ∷ (service ++ slash ∷ method))
        × IsFree slash a
        × IsFree slash service
        × IsFree slash method)
unfolding service_and_method
service_and_method_iff name s m = (
  λ h.
      let (a, e) = three_parts (split slash name) s m h in
      let free : All (IsFree slash) (a ∷ s ∷ m ∷ []) =
        subst (All (IsFree slash)) e (split-IsFree slash name) in
      (a, sym (join-split slash name) ∙ ap (join slash) e, free.0, free.1.0, free.1.1.0),
  λ (a, e, fa, fs, fm).
      rw
        (
          e,
          split-append slash a (s ++ slash ∷ m) fa,
          split-append slash s m fs,
          split-free slash m fm,
        )
        refl,
)
