-- ===== src/Stores/Scan.antt =====
-- vector_stores/qdrant.py: the paged scan of `list_chunks_for_corpora`.
use mathlib.Core.List.{map-append}
use mathlib.Core.Path.{subst}
use doccontext.Base.{
  ℕ, zero, suc, ◌+◌, ◌-◌, min, ◌≤◌, ◌<◌, ◌≡◌, refl, sym, ap, ◌∙◌, Bool, true, false,
}
use doccontext.Base.{
  Option, none, some, List, [], ◌++◌, map, arith, inl, inr, Bool-cases, ltb, leb, ltb→lt,
}
use doccontext.Base.{
  Text, length, take, drop, is_empty, length-take, length-map, Option-cases, take_all,
  take-append-slice,
}
use doccontext.Base.Int.{pos}
use doccontext.Base.Exn.{Exn, ok, raise}
use doccontext.Models.{RetrievedChunk}
use doccontext.Stores.Qdrant.{
  Point, Condition, QdrantClient, contains_text, chunk_of_point, scan_loop, corpora_filter,
  list_chunks_for_corpora,
}

-- What a page says of the place behind it: there is no next offset exactly if the listing ends
-- there.
abbrev pub Continues : {O : Type 0} → (O → ℕ) → ℕ → ℕ → Option O → Type 0
Continues position end total none = total ≤ end
Continues position end total (some offset) = (position offset ≡ end) × (end < total)

-- The collection is there.
abbrev pub is_there : {F : Type 0} (C : QdrantClient F) → C.State → Text → Bool
is_there C s col = contains_text (C.collections s) col

-- What is assumed of `scroll`: it raises if the collection is not there. If it is, the points that
-- match a filter have an order, an offset is a place in it, and a page holds the points from its
-- offset on, as many as were asked for while there are.
pub record IsScrollable {F : Type 0} (C : QdrantClient F) : Type 0 where
  pub listing : C.State → Text → List Condition → List (Point F)
  pub position : C.State → Text → List Condition → C.Offset → ℕ
  pub first_page :
      (s : C.State) (col : Text) (filt : List Condition) (n : ℕ)
      → is_there C s col ≡ true
      → 0 < n
      → (next : Option C.Offset) × (C.scroll col filt n none s
          ≡ ok (take n (listing s col filt), next))
        × Continues (position s col filt) n (length (listing s col filt)) next
  pub later_page :
      (s : C.State) (col : Text) (filt : List Condition) (n : ℕ) (offset : C.Offset)
      → is_there C s col ≡ true
      → 0 < n
      → (next : Option C.Offset) × (C.scroll col filt n (some offset) s
          ≡ ok (take n (drop (position s col filt offset) (listing s col filt)), next))
        × Continues
            (position s col filt)
            (position s col filt offset + n)
            (length (listing s col filt))
            next
  pub no_page :
      (s : C.State) (col : Text) (filt : List Condition) (n : ℕ) (offset : Option C.Offset)
      → is_there C s col ≡ false
      → (e : Exn) × (C.scroll col filt n offset s ≡ raise e)

module _ {F : Type 0} (C : QdrantClient F) (L : IsScrollable C) (col : Text) (zero_score : F) where
  abbrev pub unscored : List (Point F) → List (RetrievedChunk F)
  unscored = map (λ p. chunk_of_point p zero_score)

  module _ (s : C.State) (filt : List Condition) (page limit : ℕ) (some_page : 0 < page)
      (there : is_there C s col ≡ true) where
    abbrev points : List (Point F)
    points = L.listing s col filt

    -- The place that the loop has reached.
    abbrev At : ℕ → Option C.Offset → Type 0
    At k none = k ≡ 0
    At k (some offset) = L.position s col filt offset ≡ k

    scroll_page :
        (k n : ℕ) (next : Option C.Offset)
        → At k next
        → 0 < n
        → (after : Option C.Offset) × (C.scroll col filt n next s
            ≡ ok (take n (drop k points), after))
          × Continues (L.position s col filt) (k + n) (length points) after
    scroll_page k n none at full =
        let (after, e, c) = L.first_page s col filt n there full in
        (
          after,
          rw at e,
          subst (λ (m : ℕ). Continues (L.position s col filt) m (length points) after)
              (let q : n ≡ k + n = omega arith in q) c,
        )
    scroll_page k n (some offset) at full =
        subst
          (λ m.
            (after : Option C.Offset) × (C.scroll col filt n (some offset) s
              ≡ ok (take n (drop m points), after))
            × Continues (L.position s col filt) (m + n) (length points) after)
          at (L.later_page s col filt n offset there full)

    append-take : (k n : ℕ) → take k points ++ take n (drop k points) ≡ take (k + n) points
    append-take k n =
        ap (λ (m : ℕ). take k points ++ take m (drop k points))
          (let q : n ≡ k + n - k = omega arith in q)
        ∙ take-append-slice k (k + n) points (omega arith)

    scan_loop_lem :
        (fuel k : ℕ) (out : List (RetrievedChunk F)) (next : Option C.Offset)
        → out ≡ unscored (take k points)
        → length out ≡ k
        → At k next
        → k ≤ limit
        → limit < fuel + k
        → scan_loop C col zero_score fuel filt page limit out next s
          ≡ some (ok (unscored (take limit points)))
    unfolding scan_loop
    scan_loop_lem zero k out next e len at le enough = absurd (omega arith)
    scan_loop_lem (suc fuel) k out next e len at le enough =
        elim (Bool-cases (ltb (length out) limit)) [
          | inr full ↦
              let end : k ≡ limit = ground arith in
              rw (full, scan_loop)
                (ap (λ l. some (ok l)) (e ∙ ap (λ m. unscored (take m points)) end))
          | inl more ↦
              let n : ℕ = min page (limit - length out) in
              let room : length out < limit = ltb→lt (length out) limit more in
              let (after, page_read, c) = scroll_page k n next at (omega arith) in
              let read : out ++ unscored (take n (drop k points)) ≡ unscored (take (k + n) points) =
                ap (λ o. o ++ unscored (take n (drop k points))) e
                ∙ sym (
                    map-append (λ p. chunk_of_point p zero_score) (take k points)
                      (take n (drop k points)))
                ∙ ap unscored (append-take k n) in
              elim (Option-cases after) [
                | inl last ↦
                    let over : length points ≤ k + n =
                      subst (Continues (L.position s col filt) (k + n) (length points)) last c in
                    rw (more, scan_loop, page_read, last)
                      (ap (λ l. some (ok l))
                        (read
                          ∙ ap unscored (
                              take_all (k + n) points over
                              ∙ sym (take_all limit points (omega arith)))))
                | inr (offset, going) ↦
                    let on : (L.position s col filt offset ≡ k + n) × (k + n < length points) =
                      subst (Continues (L.position s col filt) (k + n) (length points)) going c in
                    rw (more, scan_loop, page_read, going)
                      (scan_loop_lem fuel (k + n) (out ++ unscored (take n (drop k points)))
                        (some offset) read
                        (ap length read
                          ∙ length-map (λ p. chunk_of_point p zero_score) (take (k + n) points)
                          ∙ omega (arith, length-take (k + n) points))
                        on.0 (omega arith) (omega arith))
              ]
        ]

  -- With at least one corpus and a limit that is not negative, in a collection that is there, the
  -- loop ends. It returns the chunks of the first `limit` points that match the filter of the client
  -- and the corpora.
  pub list_chunks_for_corpora_lem :
      (s : C.State) (client_id : Text) (corpus_ids : List Text) (limit : ℕ)
      → is_there C s col ≡ true
      → is_empty corpus_ids ≡ false
      → list_chunks_for_corpora C col zero_score client_id corpus_ids (pos limit) s
        ≡ some (ok (unscored (take limit (L.listing s col (corpora_filter client_id corpus_ids)))))
  unfolding list_chunks_for_corpora
  list_chunks_for_corpora_lem s client_id corpus_ids zero there some_corpus = rw some_corpus refl
  list_chunks_for_corpora_lem s client_id corpus_ids (suc limit) there some_corpus =
      let positive : leb (suc limit) 0 ≡ false = ground arith in
      rw (some_corpus, positive)
        (scan_loop_lem s (corpora_filter client_id corpus_ids) (min (suc limit) 512) (suc limit)
          (omega arith) there (suc (suc limit)) 0 [] none refl refl refl (omega arith)
          (omega arith))

  scan_loop-missing :
      (s : C.State) (filt : List Condition) (fuel page limit : ℕ) (out : List (RetrievedChunk F))
      (next : Option C.Offset)
      → is_there C s col ≡ false
      → ltb (length out) limit ≡ true
      → (e : Exn) × (scan_loop C col zero_score (suc fuel) filt page limit out next s
          ≡ some (raise e))
  unfolding scan_loop
  scan_loop-missing s filt fuel page limit out next missing more =
      let (e, refused) = L.no_page s col filt (min page (limit - length out)) next missing in
      (e, rw (more, scan_loop, refused) refl)

  -- A scan of a collection that is not there raises, unless it asks for nothing.
  pub list_chunks_for_corpora_missing :
      (s : C.State) (client_id : Text) (corpus_ids : List Text) (limit : ℕ)
      → is_there C s col ≡ false
      → is_empty corpus_ids ≡ false
      → (e : Exn) × (list_chunks_for_corpora C col zero_score client_id corpus_ids
            (pos (suc limit))
            s
          ≡ some (raise e))
  unfolding list_chunks_for_corpora
  list_chunks_for_corpora_missing s client_id corpus_ids limit missing some_corpus =
      let positive : leb (suc limit) 0 ≡ false = ground arith in
      let (e, raised) =
        scan_loop-missing s (corpora_filter client_id corpus_ids) (suc limit) (min (suc limit) 512)
          (suc limit) [] none missing
          (let more : ltb 0 (suc limit) ≡ true = ground arith in more) in
      (e, rw (some_corpus, positive) raised)
