-- ===== src/Bond/Claims/Pages.antt =====
-- The pages of a user's claims (contracts/credence_bond/src/claims.rs).
use credence_contracts.Prelude.{
  ℕ, ◌+◌, ◌-◌, ◌%◌, ◌^◌, ◌≤◌, ◌<◌, ◌≡◌, refl, sym, ap, subst, ◌∙◌, Option, none, some, List, [],
  ◌∷◌, ◌++◌, length, ltb, leb, ◌==◌, min, if◌then◌else◌, arith, Bool-cases, inl, inr, length-append,
}
use credence_contracts.Prelude.Slices.{collect, suffix, take, page_slice}
use mathlib.Core.List.{append-nil, append_assoc}
use credence_contracts.Host.{Address, u32_max}
use credence_contracts.Bond.Claims.{PendingClaim, Storage, max_page_limit, get_pending_claims}
use credence_contracts.Bond.Claims.Sweeps.{select}

-- The loop of `get_pending_claims_page`, with the page so far and its cursor.
unfoldable pub fill_page :
    ℕ → ℕ → List PendingClaim → List PendingClaim → Option ℕ → List PendingClaim × Option ℕ
fill_page capped start_after [] page next = (page, next)
fill_page capped start_after (c ∷ cs) page next =
    let skip = fill_page capped start_after cs page next in
    let push = fill_page capped start_after cs (page ++ c ∷ []) (some c.claim_id) in
    if leb c.claim_id start_after
    then skip
    else (if leb capped (length page) then (page, next) else push)

abbrev close_page : ℕ → List PendingClaim × Option ℕ → List PendingClaim × Option ℕ
close_page capped (page, next) = (page, if ltb (length page) capped then none else next)

unfoldable pub get_pending_claims_page : Address → ℕ → ℕ → Storage → List PendingClaim × Option ℕ
unfolding fill_page
get_pending_claims_page user start_after limit s =
    let capped = min limit max_page_limit in
    if capped == 0
    then ([], none)
    else close_page capped (fill_page capped start_after (get_pending_claims s user) [] none)

-- The ids ascend, from above `bound` on.
abbrev pub AscendsFrom : ℕ → List PendingClaim → Type 0
AscendsFrom bound [] = Unit
AscendsFrom bound (c ∷ cs) = (bound < c.claim_id) × AscendsFrom c.claim_id cs

-- The claims beyond a cursor.
abbrev pub beyond : ℕ → List PendingClaim → List PendingClaim
beyond cursor cs = select (λ c. ltb cursor c.claim_id) cs

beyond_all :
    (bound x : ℕ) (cs : List PendingClaim) → x ≤ bound → AscendsFrom bound cs → beyond x cs ≡ cs
beyond_all bound x [] h a = refl
beyond_all bound x (c ∷ cs) h a = ground (arith, beyond_all c.claim_id x cs (ground arith) a.1)

-- What the loop gives on claims that lie beyond `x`: a page, and where to go on.
record More (capped x : ℕ) (cs page : List PendingClaim) (r : List PendingClaim × Option ℕ)
    : Type 0 where
  bounded : length r.0 ≤ capped
  whole : length r.0 < capped → r.0 ≡ page ++ cs
  cursor : ℕ
  found : r.1 ≡ some cursor
  later : x ≤ cursor
  rest : r.0 ++ beyond cursor cs ≡ page ++ cs

fill-More :
    (capped start x : ℕ) (cs page : List PendingClaim)
    → start ≤ x
    → AscendsFrom x cs
    → length page ≤ capped
    → More capped x cs page (fill_page capped start cs page (some x))
unfolding fill_page
fill-More capped start x [] page h a b = record {
  bounded = b;
  whole = λ k. sym (append-nil page);
  cursor = x;
  found = refl;
  later = omega arith;
  rest = refl;
}
fill-More capped start x (c ∷ cs) page h a b = elim (Bool-cases (leb capped (length page))) [
  | inl full ↦
      let stop : fill_page capped start (c ∷ cs) page (some x) ≡ (page, some x) = ground arith in
      subst (More capped x (c ∷ cs) page) (sym stop) (record {
        bounded = b;
        whole = λ k. absurd (ground arith);
        cursor = x;
        found = refl;
        later = omega arith;
        rest = ap (λ (l : List PendingClaim). page ++ l) (beyond_all x x (c ∷ cs) (omega arith) a);
      })
  | inr room ↦
      let r = fill_page capped start cs (page ++ c ∷ []) (some c.claim_id) in
      let go : fill_page capped start (c ∷ cs) page (some x) ≡ r = ground arith in
      let m =
        fill-More capped start c.claim_id cs (page ++ c ∷ []) (omega arith) a.1
          (ground (arith, length-append {0} page (c ∷ []))) in
      let passed : beyond m.cursor (c ∷ cs) ≡ beyond m.cursor cs = ground (arith, m.later) in
      subst (More capped x (c ∷ cs) page) (sym go) (record {
        bounded = m.bounded;
        whole = λ k. m.whole k ∙ append_assoc page (c ∷ []) cs;
        cursor = m.cursor;
        found = m.found;
        later = omega (arith, m.later);
        rest =
            ap (λ (l : List PendingClaim). r.0 ++ l) passed
            ∙ m.rest
            ∙ append_assoc page (c ∷ []) cs;
      })
]

-- The part of a page that the caller sees, against all claims beyond the caller's cursor.
record Paged (capped start : ℕ) (cs : List PendingClaim) (r : List PendingClaim × Option ℕ)
    : Type 0 where
  bounded : length r.0 ≤ capped
  whole : length r.0 < capped → r.0 ≡ beyond start cs
  rest : (y : ℕ) → r.1 ≡ some y → (start < y) × (r.0 ++ beyond y cs ≡ beyond start cs)
  ends : r.1 ≡ none → length r.0 < capped

fill-Paged :
    (capped start bound : ℕ) (cs : List PendingClaim)
    → 0 < capped
    → AscendsFrom bound cs
    → Paged capped start cs (fill_page capped start cs [] none)
unfolding fill_page
fill-Paged capped start bound [] h a = record {
  bounded = omega arith;
  whole = λ k. refl;
  rest = λ y k. absurd (ground arith);
  ends = λ k. h;
}
fill-Paged capped start bound (c ∷ cs) h a = elim (Bool-cases (leb c.claim_id start)) [
  | inl skipped ↦
      let r = fill_page capped start cs [] none in
      let go : fill_page capped start (c ∷ cs) [] none ≡ r = ground arith in
      let p = fill-Paged capped start c.claim_id cs h a.1 in
      let same : beyond start (c ∷ cs) ≡ beyond start cs = ground arith in
      subst (Paged capped start (c ∷ cs)) (sym go) (record {
        bounded = p.bounded;
        whole = λ k. p.whole k ∙ sym same;
        rest = λ y k.
            let (past, q) = p.rest y k in
            let passed : beyond y (c ∷ cs) ≡ beyond y cs = ground arith in
            (past, ap (λ (l : List PendingClaim). r.0 ++ l) passed ∙ q ∙ sym same);
        ends = p.ends;
      })
  | inr wanted ↦
      let r = fill_page capped start cs (c ∷ []) (some c.claim_id) in
      let go : fill_page capped start (c ∷ cs) [] none ≡ r = ground arith in
      let m = fill-More capped start c.claim_id cs (c ∷ []) (ground arith) a.1 (omega (arith, h)) in
      let all = beyond_all start start (c ∷ cs) (omega arith) (ground arith, a.1) in
      let passed : beyond m.cursor (c ∷ cs) ≡ beyond m.cursor cs = ground (arith, m.later) in
      subst (Paged capped start (c ∷ cs)) (sym go) (record {
        bounded = m.bounded;
        whole = λ k. m.whole k ∙ sym all;
        rest = λ y k.
            let here : m.cursor ≡ y = ground (arith, m.found) in
            (
              ground (arith, m.later),
              subst (λ (z : ℕ). r.0 ++ beyond z (c ∷ cs) ≡ beyond start (c ∷ cs)) here
                  (ap (λ (l : List PendingClaim). r.0 ++ l) passed ∙ m.rest ∙ sym all),
            );
        ends = λ k. absurd (ground (arith, m.found));
      })
]

-- The claims of a page, then those beyond its next cursor, are those beyond the caller's cursor.
abbrev pub Continues : ℕ → ℕ → List PendingClaim → List PendingClaim × Option ℕ → Type 0
Continues capped start cs (page, next) =
    (length page ≤ capped)
    × (next ≡ none → page ≡ beyond start cs)
    × ((y : ℕ) → next ≡ some y → (start < y) × (page ++ beyond y cs ≡ beyond start cs))

close_page-Continues :
    (capped start : ℕ) (cs : List PendingClaim) (r : List PendingClaim × Option ℕ)
    → Paged capped start cs r
    → Continues capped start cs (close_page capped r)
close_page-Continues capped start cs (page, next) p = elim (Bool-cases (ltb (length page) capped)) [
  | inl short ↦ (p.bounded, (λ k. p.whole (ground arith)), (λ y k. absurd (ground (arith, short))))
  | inr full ↦
      let stays : (if ltb (length page) capped then none else next) ≡ next = ground (arith, full) in
      (p.bounded, (λ k. p.whole (p.ends (sym stays ∙ k))), (λ y k. p.rest y (sym stays ∙ k)))
]

-- With a limit that is not zero, and claims whose ids ascend: a page holds at most as many claims as
-- the limit, and at most fifty; a page without a next cursor is all the claims beyond the caller's
-- cursor; a page with one, followed by the claims beyond the next cursor, is all the claims beyond
-- the caller's cursor, and the next cursor has moved on.
pub claims_page_exact :
    (user : Address) (start limit bound : ℕ) (s : Storage)
    → 0 < limit
    → AscendsFrom bound (get_pending_claims s user)
    → Continues
        (min limit max_page_limit)
        start
        (get_pending_claims s user)
        (get_pending_claims_page user start limit s)
unfolding get_pending_claims_page
claims_page_exact user start limit bound s h a =
    let cs = get_pending_claims s user in
    let capped : ℕ = min limit max_page_limit in
    let p = fill-Paged capped start bound cs (omega arith) a in
    let filled = fill_page capped start cs [] none in
    let closed : get_pending_claims_page user start limit s ≡ close_page capped filled =
      ground arith in
    subst (Continues capped start cs) (sym closed) (close_page-Continues capped start cs filled p)

abbrev pub max_query_limit : ℕ
max_query_limit = 200

-- The sum `offset + effective_limit` is a u32 and wraps.
unfoldable pub get_pending_claims_paginated : Address → ℕ → ℕ → Storage → List PendingClaim
unfolding collect
get_pending_claims_paginated user offset limit s =
    let all = get_pending_claims s user in
    let effective_limit = if limit == 0 then max_query_limit else min limit max_query_limit in
    if leb (length all) offset
    then []
    else (let end = min ((offset + effective_limit) % 2 ^ 32) (length all) in
        collect (end - offset) offset all)

-- If the offset is so small that the end of a page does not wrap: a page has the claims from the
-- offset on, in their order, as many as the limit, which is at most two hundred and two hundred if
-- it is zero, or as many as there are.
pub claims_paginated_exact :
    (user : Address) (offset limit : ℕ) (s : Storage)
    → offset + max_query_limit ≤ u32_max
    → get_pending_claims_paginated user offset limit s
      ≡ take
          (if limit == 0 then max_query_limit else min limit max_query_limit)
          (suffix offset (get_pending_claims s user))
unfolding get_pending_claims_paginated
claims_paginated_exact user offset limit s small =
    let short : (if limit == 0 then max_query_limit else min limit max_query_limit)
        ≤ max_query_limit =
      ground arith in
    page_slice offset (if limit == 0 then max_query_limit else min limit max_query_limit)
      (get_pending_claims s user) (omega (arith, short, small))
