-- ===== src/Registry/Pages.antt =====
-- The pages of identities (contracts/credence_registry/src/lib.rs).
use credence_contracts.Prelude.{ℕ, ◌+◌, ◌≤◌, ◌≡◌, min, arith}
use credence_contracts.Prelude.Slices.{take, suffix, page_slice}
use credence_contracts.Host.{u32_max}
use credence_contracts.Registry.{
  Storage, get_identities, get_identities_page, max_identities_page_size,
}

-- If the offset is so small that the end of a page does not wrap: a page has the identities from the
-- offset on, in their order, as many as the limit and at most two hundred, or as many as there are.
pub identities_page_exact :
    (offset limit : ℕ) (s : Storage)
    → offset + max_identities_page_size ≤ u32_max
    → get_identities_page offset limit s
      ≡ take (min limit max_identities_page_size) (suffix offset (get_identities s))
unfolding get_identities_page
identities_page_exact offset limit s small =
    page_slice offset (min limit max_identities_page_size) (get_identities s) (omega arith)
