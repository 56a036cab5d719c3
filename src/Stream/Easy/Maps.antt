-- ===== src/Stream/Easy/Maps.antt =====
-- src/stream/easy.rs: merging errors, and mapping their tokens.
use combine.Prelude.{◌≡◌, refl, ap, ◌∙◌, Bool, List, [], ◌∷◌, ◌++◌, map, Bool-cases, inl, inr}
use Prim.Native.Nat.{Ordering}
use combine.Stream.Easy.{
  EasyInfo, token_info, range_info, owned, static_info, EasyError, unexpected_error, expected_error,
  message_error, other_error, Errors, eq_info, eq_error, is_new, push_new, push_all, merge_by,
  merge_errors,
}
use combine.Stream.Easy.Convert.{map_token_info, map_token_error, map_token}

module _ {T R U : Type 0} (f : T → U) (eq_t : T → T → Bool) (eq_u : U → U → Bool)
    (eq_r : R → R → Bool) (keeps : (a b : T) → eq_u (f a) (f b) ≡ eq_t a b) where
  eq_info-map_token :
      (l r : EasyInfo T R)
      → eq_info eq_u eq_r (map_token_info f l) (map_token_info f r) ≡ eq_info eq_t eq_r l r
  unfolding eq_info map_token_info
  eq_info-map_token (token_info x) (token_info y) = keeps x y
  eq_info-map_token (token_info x) (range_info y) = refl
  eq_info-map_token (token_info x) (owned y) = refl
  eq_info-map_token (token_info x) (static_info y) = refl
  eq_info-map_token (range_info x) (token_info y) = refl
  eq_info-map_token (range_info x) (range_info y) = refl
  eq_info-map_token (range_info x) (owned y) = refl
  eq_info-map_token (range_info x) (static_info y) = refl
  eq_info-map_token (owned x) (token_info y) = refl
  eq_info-map_token (owned x) (range_info y) = refl
  eq_info-map_token (owned x) (owned y) = refl
  eq_info-map_token (owned x) (static_info y) = refl
  eq_info-map_token (static_info x) (token_info y) = refl
  eq_info-map_token (static_info x) (range_info y) = refl
  eq_info-map_token (static_info x) (owned y) = refl
  eq_info-map_token (static_info x) (static_info y) = refl

module _ {T R U X : Type 0} (f : T → U) (eq_t : T → T → Bool) (eq_u : U → U → Bool)
    (eq_r : R → R → Bool) (keeps : (a b : T) → eq_u (f a) (f b) ≡ eq_t a b) where
  eq_error-map_token :
      (l r : EasyError T R X)
      → eq_error eq_u eq_r (map_token_error f l) (map_token_error f r) ≡ eq_error eq_t eq_r l r
  unfolding eq_error map_token_error
  eq_error-map_token (unexpected_error x) (unexpected_error y) =
      eq_info-map_token f eq_t eq_u eq_r keeps x y
  eq_error-map_token (unexpected_error x) (expected_error y) = refl
  eq_error-map_token (unexpected_error x) (message_error y) = refl
  eq_error-map_token (unexpected_error x) (other_error y) = refl
  eq_error-map_token (expected_error x) (unexpected_error y) = refl
  eq_error-map_token (expected_error x) (expected_error y) =
      eq_info-map_token f eq_t eq_u eq_r keeps x y
  eq_error-map_token (expected_error x) (message_error y) = refl
  eq_error-map_token (expected_error x) (other_error y) = refl
  eq_error-map_token (message_error x) (unexpected_error y) = refl
  eq_error-map_token (message_error x) (expected_error y) = refl
  eq_error-map_token (message_error x) (message_error y) =
      eq_info-map_token f eq_t eq_u eq_r keeps x y
  eq_error-map_token (message_error x) (other_error y) = refl
  eq_error-map_token (other_error x) (unexpected_error y) = refl
  eq_error-map_token (other_error x) (expected_error y) = refl
  eq_error-map_token (other_error x) (message_error y) = refl
  eq_error-map_token (other_error x) (other_error y) = refl

  map-append :
      (xs ys : List (EasyError T R X))
      → map (map_token_error f) (xs ++ ys)
        ≡ map (map_token_error f) xs ++ map (map_token_error f) ys
  map-append [] ys = refl
  map-append (x ∷ xs) ys = ap (λ zs. map_token_error f x ∷ zs) (map-append xs ys)

  is_new-map_token :
      (e : EasyError T R X) (es : List (EasyError T R X))
      → is_new eq_u eq_r (map_token_error f e) (map (map_token_error f) es) ≡ is_new eq_t eq_r e es
  unfolding is_new
  is_new-map_token e [] = refl
  is_new-map_token e (x ∷ es) = rw (eq_error-map_token x e, is_new-map_token e es)

  push_new-map_token :
      (e : EasyError T R X) (es : List (EasyError T R X))
      → push_new eq_u eq_r (map_token_error f e) (map (map_token_error f) es)
        ≡ map (map_token_error f) (push_new eq_t eq_r e es)
  unfolding push_new
  push_new-map_token e es = elim (Bool-cases (is_new eq_t eq_r e es)) [
    | inl new ↦ rw (is_new-map_token e es, new, map-append es (e ∷ []))
    | inr old ↦ rw (is_new-map_token e es, old)
  ]

  push_all-map_token :
      (es others : List (EasyError T R X))
      → push_all eq_u eq_r (map (map_token_error f) es) (map (map_token_error f) others)
        ≡ map (map_token_error f) (push_all eq_t eq_r es others)
  unfolding push_all
  push_all-map_token es [] = refl
  push_all-map_token es (e ∷ others) =
      ap (λ zs. push_all eq_u eq_r zs (map (map_token_error f) others)) (push_new-map_token e es)
      ∙ push_all-map_token (push_new eq_t eq_r e es) others

  merge_by-map_token :
      {P : Type 0} (o : Ordering) (a b : Errors T R X P)
      → merge_by eq_u eq_r o (map_token f a) (map_token f b)
        ≡ map_token f (merge_by eq_t eq_r o a b)
  unfolding merge_by map_token
  merge_by-map_token Ordering.lt a b = refl
  merge_by-map_token Ordering.gt a b = refl
  merge_by-map_token Ordering.eq a b = rw (push_all-map_token a.errors b.errors)

  -- Where the map keeps tokens apart that are not equal, and equal ones equal, it does not matter
  -- whether errors are merged before or after their tokens are mapped.
  pub merge_errors-map_token :
      {P : Type 0} (cmp : P → P → Ordering) (a b : Errors T R X P)
      → merge_errors eq_u eq_r cmp (map_token f a) (map_token f b)
        ≡ map_token f (merge_errors eq_t eq_r cmp a b)
  unfolding merge_errors map_token
  merge_errors-map_token cmp a b = merge_by-map_token (cmp a.position b.position) a b
