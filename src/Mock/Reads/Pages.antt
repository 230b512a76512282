-- ===== src/Mock/Reads/Pages.antt =====
-- Reading a list page by page.
use sorostream_sdk.Base.{
  ℕ, suc, ◌+◌, ◌≡◌, ◌≢◌, refl, String, false, some, List, [], ◌∷◌, ◌++◌, nat_eq, string_eq, ◌==◌,
  ltb, length, length-append, take, All, arith,
}
use text.Mathlib.TextEquality.{eq_iff}
use sorostream_sdk.Stream.{Stream}
use sorostream_sdk.Mock.Reads.{after_cursor, start_of, skip, paginate}

-- No stream of the list has the id.
abbrev pub Without : String → List Stream → Type 0
Without id ss = All (λ s. s.id ≢ id) ss

after_cursor-append :
    (before : List Stream) (s : Stream) (rest : List Stream)
    → Without s.id before
    → after_cursor s.id (before ++ s ∷ rest) ≡ length before + 1
unfolding after_cursor
after_cursor-append [] s rest h = ground (arith, eq_iff s.id s.id)
after_cursor-append (t ∷ ts) s rest h =
    ground (arith, after_cursor-append ts s rest h.1, eq_iff t.id s.id)

skip-append :
    (before : List Stream) (s : Stream) (rest : List Stream)
    → skip (length before + 1) (before ++ s ∷ rest) ≡ rest
skip-append [] s rest = refl
skip-append (t ∷ ts) s rest =
    let more : suc (length ts) + 1 ≡ suc (length ts + 1) = omega arith in
    rw more (skip-append ts s rest)

-- The page after the cursor of a stream, whose id is not empty and stands in the list once before
-- it, holds the streams that follow it, up to the limit, and says that there are more exactly when
-- the limit leaves some out.
pub paginate-after :
    (before : List Stream) (s : Stream) (rest : List Stream) (limit : ℕ)
    → Without s.id before
    → s.id ≢ ""
    → ((paginate (before ++ s ∷ rest) (record { limit = some limit; cursor = some s.id })).streams
        ≡ take limit rest)
      × ((paginate
            (before ++ s ∷ rest)
            (record { limit = some limit; cursor = some s.id })).has_more
          ≡ ltb limit (length rest))
unfolding paginate start_of
paginate-after before s rest limit h named =
    let named_test : (s.id == "") ≡ false = ground (arith, eq_iff s.id "") in
    rw (named_test, after_cursor-append before s rest h, skip-append before s rest)
      (refl, ground (arith, length-append before (s ∷ rest)))
