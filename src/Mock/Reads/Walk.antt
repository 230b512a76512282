-- ===== src/Mock/Reads/Walk.antt =====
-- Reading a list by all of its pages.
use sorostream_sdk.Base.{
  ℕ, zero, suc, ◌≤◌, ◌<◌, ◌≡◌, ◌≢◌, inl, inr, refl, sym, ap, ◌∙◌, subst, String, Option, none, some,
  List, [], ◌∷◌, ◌++◌, nat_eq, string_eq, ltb, if◌then◌else◌, length, take, Bool-cases, arith,
}
use mathlib.Core.List.{append_assoc}
use sorostream_sdk.Stream.{Stream}
use sorostream_sdk.Mock.Reads.{PaginationParams, start_of, last_id, paginate}
use sorostream_sdk.Mock.Reads.Pages.{Without, paginate-after}

-- The pages from a cursor on, each asked for with the cursor of the one before, until one says that
-- there are no more. The first argument bounds their number.
unfoldable pub pages : ℕ → ℕ → Option String → List Stream → List Stream
pages zero limit cursor all = []
pages (suc n) limit cursor all =
    let page = paginate all (record { limit = some limit; cursor = cursor }) in
    let rest = pages n limit page.cursor all in
    if page.has_more then page.streams ++ rest else page.streams

-- No id is empty, and none stands in the list twice.
abbrev pub IsNamed : List Stream → Type 0
IsNamed [] = Unit
IsNamed (s ∷ ss) = (s.id ≢ "") × Without s.id ss × IsNamed ss

Without-middle :
    (before : List Stream) (s : Stream) (rest : List Stream) (id : String)
    → Without id (before ++ s ∷ rest)
    → s.id ≢ id
Without-middle [] s rest id h = h.0
Without-middle (t ∷ ts) s rest id h = Without-middle ts s rest id h.1

IsNamed-middle :
    (before : List Stream) (s : Stream) (rest : List Stream)
    → IsNamed (before ++ s ∷ rest)
    → Without s.id before × (s.id ≢ "")
IsNamed-middle [] s rest h = (tt, h.0)
IsNamed-middle (t ∷ ts) s rest h =
    let (before, named) = IsNamed-middle ts s rest h.2 in
    (((λ e. Without-middle ts s rest t.id h.1 (sym e)), before), named)

last_id-append : (front : List Stream) (t : Stream) → last_id (front ++ t ∷ []) ≡ some t.id
last_id-append [] t = refl
last_id-append (x ∷ []) t = refl
last_id-append (x ∷ y ∷ ys) t = last_id-append (y ∷ ys) t

take-short : (n : ℕ) (ss : List Stream) → length ss ≤ n → take n ss ≡ ss
take-short zero [] h = refl
take-short zero (s ∷ ss) h = absurd (omega arith)
take-short (suc n) [] h = refl
take-short (suc n) (s ∷ ss) h = ap (λ xs. s ∷ xs) (take-short n ss (omega arith))

-- A page that is not the last one ends with a stream, from which the next goes on.
record Cut (n : ℕ) (ss : List Stream) : Type 0 where
  front : List Stream
  last : Stream
  back : List Stream
  whole : ss ≡ front ++ last ∷ back
  page : take (suc n) ss ≡ front ++ last ∷ []
  less : length back < length ss

cut : (n : ℕ) (ss : List Stream) → suc n < length ss → Cut n ss
cut n [] h = absurd (omega arith)
cut zero (s ∷ ss) h = record {
  front = [];
  last = s;
  back = ss;
  whole = refl;
  page = refl;
  less = omega arith;
}
cut (suc n) (s ∷ ss) h =
    let c = cut n ss (omega arith) in
    record {
      front = s ∷ c.front;
      last = c.last;
      back = c.back;
      whole = ap (λ xs. s ∷ xs) c.whole;
      page = ap (λ xs. s ∷ xs) c.page;
      less = omega (arith, c.less);
    }

paginate-cursor :
    (all : List Stream) (p : PaginationParams)
    → (paginate all p).cursor ≡ last_id (paginate all p).streams
unfolding paginate
paginate-cursor all p = refl

pages-after :
    (fuel n : ℕ) (before : List Stream) (s : Stream) (rest : List Stream)
    → IsNamed (before ++ s ∷ rest)
    → length rest < fuel
    → pages fuel (suc n) (some s.id) (before ++ s ∷ rest) ≡ rest
unfolding pages
pages-after zero n before s rest h k = absurd (omega arith)
pages-after (suc fuel) n before s rest h k =
    let (absent, named) = IsNamed-middle before s rest h in
    let (streams, more) = paginate-after before s rest (suc n) absent named in
    elim (Bool-cases (ltb (suc n) (length rest))) [
      | inr last ↦ rw (more, last, streams) (take-short (suc n) rest (ground (arith, last)))
      | inl middle ↦
          let all = before ++ s ∷ rest in
          let c = cut n rest (ground (arith, middle)) in
          let page = c.front ++ c.last ∷ [] in
          let cursor =
            paginate-cursor all (record { limit = some (suc n); cursor = some s.id })
            ∙ ap last_id (streams ∙ c.page)
            ∙ last_id-append c.front c.last in
          let whole =
            ap (λ r. before ++ s ∷ r) c.whole
            ∙ sym (append_assoc before (s ∷ c.front) (c.last ∷ c.back)) in
          let later =
            pages-after fuel n (before ++ s ∷ c.front) c.last c.back (subst IsNamed whole h)
              (omega (arith, c.less)) in
          rw (more, middle, cursor, streams, c.page)
            (ap (λ a. page ++ pages fuel (suc n) (some c.last.id) a) whole
              ∙ ap (λ r. page ++ r) later
              ∙ append_assoc c.front (c.last ∷ []) c.back
              ∙ sym c.whole)
    ]

paginate-first :
    (n : ℕ) (all : List Stream)
    → ((paginate all (record { limit = some n; cursor = none })).streams ≡ take n all)
      × ((paginate all (record { limit = some n; cursor = none })).has_more ≡ ltb n (length all))
unfolding paginate start_of
paginate-first n all = (refl, ground arith)

-- Whatever the positive limit, the pages of a list, read one after the other with the cursors that
-- they return, are together the list: no stream is left out or read twice. The ids are not empty
-- and pairwise different, and one page more than there are streams is bound enough.
pub pages-all :
    (n : ℕ) (all : List Stream) → IsNamed all → pages (suc (length all)) (suc n) none all ≡ all
unfolding pages
pages-all n all h =
    let (streams, more) = paginate-first (suc n) all in
    elim (Bool-cases (ltb (suc n) (length all))) [
      | inr last ↦ rw (more, last, streams) (take-short (suc n) all (ground (arith, last)))
      | inl middle ↦
          let c = cut n all (ground (arith, middle)) in
          let page = c.front ++ c.last ∷ [] in
          let cursor =
            paginate-cursor all (record { limit = some (suc n); cursor = none })
            ∙ ap last_id (streams ∙ c.page)
            ∙ last_id-append c.front c.last in
          let later =
            pages-after (length all) n c.front c.last c.back (subst IsNamed c.whole h)
              (omega (arith, c.less)) in
          rw (more, middle, cursor, streams, c.page)
            (ap (λ a. page ++ pages (length all) (suc n) (some c.last.id) a) c.whole
              ∙ ap (λ r. page ++ r) later
              ∙ append_assoc c.front (c.last ∷ []) c.back
              ∙ sym c.whole)
    ]
