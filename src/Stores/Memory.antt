-- ===== src/Stores/Memory.antt =====
-- A Qdrant server in memory with one collection.
use mathlib.Core.List.{Perm}
use mathlib.Core.List.Perm
use mathlib.Core.Path.{subst}
use doccontext.Base.{
  true, ℕ, zero, suc, ◌+◌, ◌≤◌, ◌≡◌, refl, sym, ap, ◌∙◌, inl, inr, Option, none, some,
}
use doccontext.Base.{List, [], ◌∷◌, ◌++◌, map, arith, length, length-take, take, drop, ltb, ltb→lt}
use doccontext.Base.{if◌then◌else◌, codes, Text, Bool-cases, length-map}
use doccontext.Base.Exn.{Exn, ok, raise, external}
use doccontext.Stores.Qdrant.{Point, Condition, QdrantClient, contains_text}
use doccontext.Stores.Scan.{Continues, IsScrollable}
use doccontext.Stores.Deletion.{unmet, IsDeleting}
use doccontext.Stores.Upserts.{ids, met, kept, IsUpserting}
use doccontext.Stores.Tenants.{meets, AllMeet, AllScoredMeet, IsFiltering}

-- The points that meet a filter, and those that do not.
unfoldable pub matching : List Condition → List (Point ℕ) → List (Point ℕ)
matching filt [] = []
matching filt (p ∷ points) =
    if meets p.payload filt then p ∷ matching filt points else matching filt points

unfoldable pub without : List Condition → List (Point ℕ) → List (Point ℕ)
without filt [] = []
without filt (p ∷ points) =
    if meets p.payload filt then without filt points else p ∷ without filt points

-- The page of `n` points from `start` on.
unfoldable pub page_from : ℕ → ℕ → List (Point ℕ) → List (Point ℕ) × Option ℕ
page_from start n points =
    (take n (drop start points), if ltb (start + n) (length points) then some (start + n) else none)

abbrev pub with_score : Point ℕ → Point ℕ × ℕ
with_score p = (p, 1)

abbrev pub names : List Text
names = codes "documents" ∷ []

abbrev no_collection : Exn
no_collection = record { kind = external; message = codes "no such collection" }

abbrev pub memory_client : QdrantClient ℕ
memory_client = record {
  State = List (Point ℕ);
  Offset = ℕ;
  collections = λ s. names;
  create_collection = λ name dim s. (ok tt, s);
  create_payload_index = λ name key s. (ok tt, s);
  upsert = λ name points s.
      if contains_text names name
      then (ok tt, points ++ kept (ids points) s)
      else (raise no_collection, s);
  query_points = λ name v filt limit s. ok (map with_score (take limit (matching filt s)));
  scroll = λ name filt n offset s.
      if contains_text names name
      then ok (page_from (elim offset [ none ↦ 0 | some k ↦ k ]) n (matching filt s))
      else raise no_collection;
  count = λ name filt s. ok (length (matching filt s));
  delete = λ name filt s. (ok tt, without filt s);
}

page_from-Continues :
    (start n : ℕ) (points : List (Point ℕ))
    → Continues (λ k. k) (start + n) (length points) (page_from start n points).1
unfolding page_from
page_from-Continues start n points = elim (Bool-cases (ltb (start + n) (length points))) [
  | inl more ↦ rw more (refl, ltb→lt (start + n) (length points) more)
  | inr done ↦ rw done (ground arith)
]

first_page-Continues :
    (n : ℕ) (points : List (Point ℕ))
    → Continues (λ k. k) n (length points) (page_from 0 n points).1
first_page-Continues n points =
    subst (λ (m : ℕ). Continues (λ k. k) m (length points) (page_from 0 n points).1)
      (let e : 0 + n ≡ n = omega arith in e) (page_from-Continues 0 n points)

pub memory_client-IsScrollable : IsScrollable memory_client
unfolding page_from
memory_client-IsScrollable = record {
  listing = λ s col filt. matching filt s;
  position = λ s col filt k. k;
  first_page = λ s col filt n there pos. (
    (page_from 0 n (matching filt s)).1,
    rw there refl,
    first_page-Continues n (matching filt s),
  );
  later_page = λ s col filt n k there pos. (
    (page_from k n (matching filt s)).1,
    rw there refl,
    page_from-Continues k n (matching filt s),
  );
  no_page = λ s col filt n offset missing. (no_collection, rw missing refl);
}

-- The order of the points is the one that the server keeps them in.
pub memory_listing :
    (s : List (Point ℕ)) (col : Text) (filt : List Condition)
    → memory_client-IsScrollable.listing s col filt ≡ matching filt s
unfolding memory_client-IsScrollable
memory_listing s col filt = refl

matching-AllMeet :
    (filt : List Condition) (points : List (Point ℕ)) → AllMeet filt (matching filt points)
unfolding matching
matching-AllMeet filt [] = tt
matching-AllMeet filt (p ∷ points) = elim (Bool-cases (meets p.payload filt)) [
  | inl here ↦ rw here (here, matching-AllMeet filt points)
  | inr other ↦ rw other (matching-AllMeet filt points)
]

take-AllScoredMeet :
    (filt : List Condition) (n : ℕ) (points : List (Point ℕ))
    → AllMeet filt points
    → AllScoredMeet filt (map with_score (take n points))
take-AllScoredMeet filt zero [] h = tt
take-AllScoredMeet filt zero (p ∷ points) h = tt
take-AllScoredMeet filt (suc n) [] h = tt
take-AllScoredMeet filt (suc n) (p ∷ points) h = (h.0, take-AllScoredMeet filt n points h.1)

searched-AllScoredMeet :
    (filt : List Condition) (limit : ℕ) (s : List (Point ℕ)) (points : List (Point ℕ × ℕ))
    → ok (map with_score (take limit (matching filt s))) ≡ ok points
    → AllScoredMeet filt points × (length points ≤ limit)
searched-AllScoredMeet filt limit s points e =
    let found : map with_score (take limit (matching filt s)) ≡ points = cc in
    subst (λ l. AllScoredMeet filt l × (length l ≤ limit)) found
      (
        take-AllScoredMeet filt limit (matching filt s) (matching-AllMeet filt s),
        omega (
          arith,
          length-map with_score (take limit (matching filt s)),
          length-take limit (matching filt s),
        ),
      )

pub memory_client-IsFiltering : IsFiltering memory_client memory_client-IsScrollable
unfolding memory_client-IsScrollable
memory_client-IsFiltering = record {
  searched = λ s col v filt limit points e. searched-AllScoredMeet filt limit s points e;
  listed = λ s col filt. matching-AllMeet filt s;
}

matching-without :
    (filt other : List Condition) (points : List (Point ℕ))
    → matching other (without filt points) ≡ unmet filt (matching other points)
unfolding matching without
matching-without filt other [] = refl
matching-without filt other (p ∷ points) = elim (Bool-cases (meets p.payload filt)) [
  | inl here ↦ elim (Bool-cases (meets p.payload other)) [
    | inl listed ↦ rw (here, listed, here) (matching-without filt other points)
    | inr unlisted ↦ rw (here, unlisted) (matching-without filt other points)
  ]
  | inr kept ↦ elim (Bool-cases (meets p.payload other)) [
    | inl listed ↦ rw (kept, listed, kept) (ap (λ l. p ∷ l) (matching-without filt other points))
    | inr unlisted ↦ rw (kept, unlisted) (matching-without filt other points)
  ]
]

pub memory_client-IsDeleting : IsDeleting memory_client memory_client-IsScrollable
unfolding memory_client-IsScrollable
memory_client-IsDeleting = record {
  counted = λ s col filt n e. cc;
  deleted =
      λ s t col filt other e. ap (λ r. matching other r.1) (sym e) ∙ matching-without filt other s;
}

matching-append :
    (filt : List Condition) (new old : List (Point ℕ))
    → matching filt (new ++ old) ≡ met filt new ++ matching filt old
unfolding matching
matching-append filt [] old = refl
matching-append filt (p ∷ new) old = ground (arith, matching-append filt new old)

matching-kept :
    (filt : List Condition) (gone : List Text) (old : List (Point ℕ))
    → matching filt (kept gone old) ≡ kept gone (matching filt old)
unfolding matching
matching-kept filt gone [] = refl
matching-kept filt gone (p ∷ old) = elim (Bool-cases (contains_text gone p.id)) [
  | inl replaced ↦ elim (Bool-cases (meets p.payload filt)) [
    | inl listed ↦ rw (replaced, listed, replaced) (matching-kept filt gone old)
    | inr unlisted ↦ rw (replaced, unlisted) (matching-kept filt gone old)
  ]
  | inr stays ↦ elim (Bool-cases (meets p.payload filt)) [
    | inl listed ↦ rw (stays, listed, stays) (ap (λ l. p ∷ l) (matching-kept filt gone old))
    | inr unlisted ↦ rw (stays, unlisted) (matching-kept filt gone old)
  ]
]

-- An upsert that returns is one into the collection.
memory_upsert-Ran :
    (s t : List (Point ℕ)) (col : Text) (new : List (Point ℕ))
    → memory_client.upsert col new s ≡ (ok tt, t)
    → (contains_text names col ≡ true) × (new ++ kept (ids new) s ≡ t)
memory_upsert-Ran s t col new e = elim (Bool-cases (contains_text names col)) [
  | inl there ↦ (there, ground arith)
  | inr missing ↦ absurd (ground arith)
]

pub memory_client-IsUpserting : IsUpserting memory_client memory_client-IsScrollable
unfolding memory_client-IsScrollable
memory_client-IsUpserting = record {
  upserted = λ s t col new filt distinct e.
      subst (λ l. Perm (met filt new ++ kept (ids new) (matching filt s)) l)
        (sym (ap (λ l. met filt new ++ l) (matching-kept filt (ids new) s))
          ∙ sym (matching-append filt new (kept (ids new) s))
          ∙ ap (matching filt) (memory_upsert-Ran s t col new e).1)
        (Perm.refl (met filt new ++ kept (ids new) (matching filt s)));
  upserted_there = λ s t col new e. (memory_upsert-Ran s t col new e).0;
}
