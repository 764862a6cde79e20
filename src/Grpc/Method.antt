-- ===== src/Grpc/Method.antt =====
-- The name of a method, as the two TagRPC of plugins/grpc/stats take it apart.
use instrumentation_go.Base.{ℕ, List, [], ◌∷◌, Option, none, some, Bytes, eqb, if◌then◌else◌}
pub mod Laws

abbrev pub slash : ℕ
slash = b'/'

abbrev pub to_first : ℕ → List Bytes → List Bytes
to_first x [] = (x ∷ []) ∷ []
to_first x (part ∷ parts) = (x ∷ part) ∷ parts

-- `strings.Split` with a separator of one byte.
unfoldable pub split : ℕ → Bytes → List Bytes
split sep [] = [] ∷ []
split sep (x ∷ xs) = let parts = split sep xs in if eqb x sep then [] ∷ parts else to_first x parts

abbrev pub second_and_third : List Bytes → Option (Bytes × Bytes)
second_and_third [] = none
second_and_third (a ∷ []) = none
second_and_third (a ∷ b ∷ []) = none
second_and_third (a ∷ service ∷ method ∷ []) = some (service, method)
second_and_third (a ∷ b ∷ c ∷ d ∷ parts) = none

-- The service and the method, if there are exactly three parts.
unfoldable pub service_and_method : Bytes → Option (Bytes × Bytes)
unfolding split
service_and_method full_method_name = second_and_third (split slash full_method_name)
