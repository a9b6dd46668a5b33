-- ===== src/Arbitration/Pages.antt =====
-- The pages of the arbitrators' registry (contracts/arbitration/src/lib.rs).
use credence_contracts.Prelude.{
  ℕ, ◌+◌, ◌-◌, ◌%◌, ◌^◌, ◌≤◌, ◌<◌, ◌≡◌, inl, inr, Option, none, some, List, [], ◌++◌, length,
  Bool-cases, arith, leb, ◌==◌, if◌then◌else◌,
}
use credence_contracts.Prelude.Slices.{collect, suffix, suffix_end, page_lem, last_page_lem}
use native.Mathlib.Nat.{mod-eq_of_lt}
use credence_contracts.Host.{Address, u32_max}
use credence_contracts.Arbitration.State.{Storage, get_registry}

abbrev pub max_iter_hard_cap : ℕ
max_iter_hard_cap = 200

abbrev pub default_max_iter : ℕ
default_max_iter = 50

abbrev pub min : ℕ → ℕ → ℕ
min a b = if leb a b then a else b

abbrev pub effective_limit : ℕ → ℕ
effective_limit limit = if limit == 0 then default_max_iter else min limit max_iter_hard_cap

-- The page, and the cursor of the next one.
unfoldable pub get_arbitrators_page : ℕ → ℕ → Storage → List Address × Option ℕ
unfolding collect
get_arbitrators_page cursor limit s =
    let registry = get_registry s in
    if leb (length registry) cursor
    then ([], none)
    else (let end = min ((cursor + effective_limit limit) % 2 ^ 32) (length registry) in
        (
          collect (end - cursor) cursor registry,
          if leb (length registry) end then none else some end,
        ))

-- If the registry is so short that no index wraps: a page without a next cursor is the registry from
-- the cursor on, and a page with one is the part from the cursor up to the next cursor, which lies
-- beyond the old one and within the registry.
pub page_exact :
    (cursor limit : ℕ) (s : Storage)
    → length (get_registry s) + max_iter_hard_cap ≤ u32_max
    → let (page, next) = get_arbitrators_page cursor limit s in
      (next ≡ none → page ≡ suffix cursor (get_registry s))
      × ((c : ℕ)
          → next ≡ some c
          → (cursor < c)
            × (c < length (get_registry s))
            × (page ++ suffix c (get_registry s) ≡ suffix cursor (get_registry s)))
unfolding get_arbitrators_page
page_exact cursor limit s small =
    let l = get_registry s in
    let end : ℕ = min ((cursor + effective_limit limit) % 2 ^ 32) (length l) in
    elim (Bool-cases (leb (length l) cursor)) [
      | inl past ↦ ground (arith, suffix_end cursor l)
      | inr within ↦
          let room : cursor + effective_limit limit < 2 ^ 32 = ground arith in
          let no_wrap = mod-eq_of_lt {n = cursor + effective_limit limit} {m = 2 ^ 32} room in
          let later : cursor < end = ground (arith, no_wrap) in
          let bounded : end ≤ length l = ground arith in
          (
            λ e. ground (arith, last_page_lem cursor end l),
            λ c e. ground (arith, page_lem cursor end l),
          )
    ]
