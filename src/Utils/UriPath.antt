-- ===== src/Utils/UriPath.antt =====
-- Paths of the data model (include_public/anj/utils.h, src/anj/utils.c). `anj_uri_path_t` is the list of
-- the identifiers in use.
use anjay_lite.Base.{
  ℕ, ◌+◌, ◌≡◌, ◌⊎◌, Bool, true, false, not, ◌==◌, ltb, List, [], ◌∷◌, length, arith, if◌then◌else◌,
  refl,
}

abbrev pub UriPath : Type 0
UriPath = List ℕ

-- `anj_uri_path_has` and `anj_uri_path_is`; an `anj_id_type_t` is its number
abbrev pub uri_path_has : UriPath → (id_type : ℕ) → Bool
uri_path_has path id_type = ltb id_type (length path)

abbrev pub uri_path_is : UriPath → (id_type : ℕ) → Bool
uri_path_is path id_type = length path == id_type + 1

-- The loop of `anj_uri_path_equal`, behind its test of the lengths.
abbrev pub ids_equal : UriPath → UriPath → Bool
ids_equal (x ∷ xs) (y ∷ ys) = if not (x == y) then false else ids_equal xs ys
ids_equal _ _ = true

-- `anj_uri_path_equal`
unfoldable pub uri_path_equal : UriPath → UriPath → Bool
uri_path_equal left right =
    if not (length left == length right) then false else ids_equal left right

-- `anj_uri_path_increasing`: the loop over the identifiers that both have, and the lengths after it
unfoldable pub uri_path_increasing : (previous current : UriPath) → Bool
uri_path_increasing (p ∷ ps) (c ∷ cs) =
    let rest = uri_path_increasing ps cs in
    if ltb p c then true else if ltb c p then false else rest
uri_path_increasing [] (c ∷ cs) = true
uri_path_increasing _ [] = false

-- The order is transitive: a path above one that is above a third is above the third.
pub uri_path_increasing_trans :
    (a b c : UriPath)
    → uri_path_increasing a b ≡ true
    → uri_path_increasing b c ≡ true
    → uri_path_increasing a c ≡ true
unfolding uri_path_increasing
uri_path_increasing_trans [] [] c h h' = ground arith
uri_path_increasing_trans [] (y ∷ ys) [] h h' = ground arith
uri_path_increasing_trans [] (y ∷ ys) (z ∷ zs) h h' = refl
uri_path_increasing_trans (x ∷ xs) [] c h h' = ground arith
uri_path_increasing_trans (x ∷ xs) (y ∷ ys) [] h h' = ground arith
uri_path_increasing_trans (x ∷ xs) (y ∷ ys) (z ∷ zs) h h' =
    ground (arith, uri_path_increasing_trans xs ys zs)

-- Of two paths, either both are equal and neither is above the other, or they differ and exactly one
-- is above the other.
pub uri_path_increasing_total :
    (a b : UriPath)
    → ((uri_path_equal a b ≡ true)
        × (uri_path_increasing a b ≡ false)
        × (uri_path_increasing b a ≡ false))
      ⊎ ((uri_path_equal a b ≡ false) × (uri_path_increasing a b ≡ not (uri_path_increasing b a)))
unfolding uri_path_equal uri_path_increasing
uri_path_increasing_total [] [] = ground arith
uri_path_increasing_total [] (y ∷ ys) = ground arith
uri_path_increasing_total (x ∷ xs) [] = ground arith
uri_path_increasing_total (x ∷ xs) (y ∷ ys) = ground (arith, uri_path_increasing_total xs ys)
