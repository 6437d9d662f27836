-- ===== src/Avatar/Laws.antt =====
-- avatar.ts: the cache gives back what it was given, and an address is resolved once.
use ivena_meet.Base.{
  if◌then◌else◌, Bool-cases, starts_with, ends_with, trim, strip_slashes, is_empty, Text, codes,
  text_eq_refl, ◌≡◌, refl, ap, ◌∙◌, ◌≢◌, ◌⊎◌, inl, inr, Bool, true, false, [], ◌∷◌, ◌++◌, arith,
}
use ivena_meet.Storage.{Storage, find_item, get_item, set_item}
use ivena_meet.Avatar.{
  avatar_cache_prefix, avatar_cache_key, load_cached_avatar, save_cached_avatar, http, https,
  avatars_path, api_path, is_http, is_absolute, normalize_avatar, resolve_normalized,
  resolve_avatar_src,
}

module _ (to_lower_case : Text → Text) where
  -- A saved avatar, whose name and address are not blank, is found again under every name with the
  -- same key, if the storage can be read and written and the key is more than the prefix.
  pub load-save_cached_avatar :
      (name other url : Text) (s : Storage)
      → s.is_readable ≡ true
      → s.is_writable ≡ true
      → trim name ≢ []
      → trim url ≢ []
      → to_lower_case (trim (trim name)) ≢ []
      → to_lower_case (trim other) ≡ to_lower_case (trim (trim name))
      → load_cached_avatar to_lower_case other (save_cached_avatar to_lower_case name url s)
        ≡ trim url
  unfolding load_cached_avatar save_cached_avatar avatar_cache_key get_item set_item find_item
      is_empty
  load-save_cached_avatar name other url s r w n u k e =
      ground (arith, text_eq_refl (avatar_cache_prefix ++ to_lower_case (trim other)))

starts_with-longer : (s t p : Text) → starts_with s p ≡ true → starts_with (s ++ t) p ≡ true
unfolding starts_with
starts_with-longer [] [] [] h = refl
starts_with-longer [] (c ∷ t) [] h = refl
starts_with-longer (c ∷ s) t [] h = refl
starts_with-longer [] t (d ∷ p) h = cc
starts_with-longer (c ∷ s) t (d ∷ p) h = ground (arith, starts_with-longer s t p)

is_absolute-append : (base t : Text) → is_http base ≡ true → is_absolute (base ++ t) ≡ true
unfolding is_http is_absolute
is_absolute-append base t h = elim (Bool-cases (starts_with base http)) [
  | inl e ↦ rw (starts_with-longer base t http e)
  | inr e ↦ ground (arith, e, starts_with-longer base t https)
]

-- An absolute address is no path below the avatars, and is not empty.
normalize_of_absolute : (x : Text) → is_absolute x ≡ true → normalize_avatar x ≡ x
unfolding normalize_avatar is_absolute
normalize_of_absolute [] h = refl
normalize_of_absolute (c ∷ x) h = ground arith

absolute-not_empty : (x : Text) → is_absolute x ≡ true → is_empty x ≡ false
unfolding is_absolute is_empty
absolute-not_empty [] h = ground arith
absolute-not_empty (c ∷ x) h = refl

resolve_of_absolute : (base x : Text) → is_absolute x ≡ true → resolve_avatar_src base x ≡ x
unfolding resolve_avatar_src resolve_normalized
resolve_of_absolute base x h = rw (absolute-not_empty x h) (rw (normalize_of_absolute x h) (rw h))

not_avatars_lem : (raw : Text) → starts_with (codes "/api" ++ raw) avatars_path ≡ false
unfolding avatars_path starts_with
not_avatars_lem raw = refl

normalize_idem : (raw : Text) → normalize_avatar (normalize_avatar raw) ≡ normalize_avatar raw
unfolding normalize_avatar
normalize_idem raw = elim (Bool-cases (starts_with raw avatars_path)) [
  | inl e ↦ rw e (
      ap (λ (b : Bool). if b then codes "/api" ++ (codes "/api" ++ raw) else codes "/api" ++ raw)
        not_avatars)
  | inr e ↦ simp e
]
  where
    not_avatars : starts_with (codes "/api" ++ raw) avatars_path ≡ false
    not_avatars = not_avatars_lem raw

normalize-not_empty : (raw : Text) → is_empty raw ≡ false → is_empty (normalize_avatar raw) ≡ false
unfolding normalize_avatar is_empty
normalize-not_empty raw h = ground arith

resolve_normalized_relative : (base n : Text) → is_http base ≡ false → resolve_normalized base n ≡ n
unfolding resolve_normalized
resolve_normalized_relative base n h = ground arith

-- A conditional is absolute if both its branches are, the first one where the test holds.
absolute_if :
    (b : Bool) (x y : Text)
    → (b ≡ true → is_absolute x ≡ true)
    → is_absolute y ≡ true
    → is_absolute (if b then x else y) ≡ true
absolute_if true x y h k = h refl
absolute_if false x y h k = k

resolve_normalized_absolute :
    (base n : Text) → is_http base ≡ true → is_absolute (resolve_normalized base n) ≡ true
unfolding resolve_normalized
resolve_normalized_absolute base n h =
    let joins = λ (t : Text). is_absolute-append base t h in
    rw h (
      absolute_if (is_absolute n) _ _ (λ e. e)
        (absolute_if (starts_with n api_path) _ _
          (λ _. absolute_if (ends_with base (codes "/api")) _ _ (λ _. joins _) (joins _))
          (absolute_if (starts_with n (codes "/")) _ _ (λ _. joins _) (joins _))))

-- The result is absolute, or the normalized address where the base is not absolute.
resolve_normalized_cases :
    (base n : Text)
    → (is_absolute (resolve_normalized base n) ≡ true)
      ⊎ ((is_http base ≡ false) × (resolve_normalized base n ≡ n))
resolve_normalized_cases base n = elim (Bool-cases (is_http base)) [
  | inl e ↦ inl (resolve_normalized_absolute base n e)
  | inr e ↦ inr (e, resolve_normalized_relative base n e)
]

resolve_empty : (base : Text) → resolve_avatar_src base [] ≡ []
unfolding resolve_avatar_src is_empty
resolve_empty base = refl

resolve_cases :
    (base raw : Text)
    → (resolve_avatar_src base raw ≡ [])
      ⊎ (is_absolute (resolve_avatar_src base raw) ≡ true)
      ⊎ ((is_http (strip_slashes base) ≡ false)
          × (is_empty raw ≡ false)
          × (resolve_avatar_src base raw ≡ normalize_avatar raw))
unfolding resolve_avatar_src
resolve_cases base raw =
    ground (arith, resolve_normalized_cases (strip_slashes base) (normalize_avatar raw))

resolve_again :
    (base raw : Text)
    → is_http (strip_slashes base) ≡ false
    → is_empty raw ≡ false
    → resolve_avatar_src base (normalize_avatar raw) ≡ normalize_avatar raw
unfolding resolve_avatar_src
resolve_again base raw relative full =
    rw (normalize-not_empty raw full)
      (resolve_normalized_relative (strip_slashes base) _ relative ∙ normalize_idem raw)

-- Resolving an address that is resolved already changes nothing.
pub resolve_avatar_src_idem :
    (base raw : Text)
    → resolve_avatar_src base (resolve_avatar_src base raw) ≡ resolve_avatar_src base raw
resolve_avatar_src_idem base raw = elim (resolve_cases base raw) [
  | inl e ↦ rw e (resolve_empty base)
  | inr (inl e) ↦ resolve_of_absolute base _ e
  | inr (inr (relative, full, e)) ↦ rw e (resolve_again base raw relative full)
]
