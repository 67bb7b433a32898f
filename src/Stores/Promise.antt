-- ===== src/Stores/Promise.antt =====
-- vector_stores/: `QdrantVectorStore` as a `VectorStore`.
use mathlib.Core.Path.{subst}
use doccontext.Base.{
  ℕ, zero, suc, ◌≡◌, refl, sym, ap, ◌∙◌, Option, none, some, List, [], ◌∷◌, Text, codes, inl, inr,
  Bool-cases,
}
use doccontext.Base.Int.{pos}
use doccontext.Base.Exn.{Result, ok, raise, throw, external}
use doccontext.Models.{RetrievedChunk}
use doccontext.Stores.Interface.{VectorStore}
use doccontext.Stores.Qdrant.{
  QdrantClient, ensure_collection, upsert, search_chunks, list_chunks_for_corpora, scan_loop,
  delete_by_document,
}
use doccontext.Stores.Scan.{is_there, IsScrollable, list_chunks_for_corpora_missing}
use doccontext.Stores.Tenants.{
  AllOwn, IsFiltering, search_chunks-AllOwn, list_chunks_for_corpora-AllOwn,
}

-- What a store promises: what it returns belongs to the client and to the corpora that are named.
pub record IsTenantStore {F : Type 0} (V : VectorStore F) : Type 0 where
  pub searched :
      (v : List F) (client_id : Text) (corpus_ids : List Text) (top_k : ℕ) (s : V.State)
      (hits : List (RetrievedChunk F))
      → (V.search v client_id corpus_ids top_k s).0 ≡ ok hits
      → AllOwn client_id corpus_ids hits
  pub scanned :
      (client_id : Text) (corpus_ids : List Text) (limit : ℕ) (s : V.State)
      (docs : List (RetrievedChunk F))
      → (V.list_chunks_for_corpora client_id corpus_ids limit s).0 ≡ ok docs
      → AllOwn client_id corpus_ids docs

module _ {F : Type 0} (C : QdrantClient F) (col : Text) (zero_score : F) where
  -- A scan that ran out of fuel counts as an error of the server.
  unfoldable pub finished :
      Option (Result (List (RetrievedChunk F))) → Result (List (RetrievedChunk F))
  finished none = throw external (codes "the scan did not end")
  finished (some r) = r

  abbrev pub qdrant_store : VectorStore F
  qdrant_store = record {
    State = C.State;
    ensure_collection = ensure_collection C col zero_score;
    upsert = upsert C col zero_score;
    search = λ v client_id corpus_ids top_k s.
        (search_chunks C col zero_score v client_id corpus_ids top_k s, s);
    delete_by_document = delete_by_document C col zero_score;
    list_chunks_for_corpora = λ client_id corpus_ids limit s.
        (finished (list_chunks_for_corpora C col zero_score client_id corpus_ids (pos limit) s), s);
  }

  module _ (L : IsScrollable C) (S : IsFiltering C L) where
    finished-AllOwn :
        (client_id : Text) (corpus_ids : List Text) (limit : ℕ) (s : C.State)
        (docs : List (RetrievedChunk F))
        → finished (list_chunks_for_corpora C col zero_score client_id corpus_ids (pos limit) s)
          ≡ ok docs
        → AllOwn client_id corpus_ids docs
    unfolding finished list_chunks_for_corpora scan_loop
    finished-AllOwn client_id [] limit s docs h =
        subst (AllOwn client_id []) (let q : [] ≡ docs = cc in q) tt
    finished-AllOwn client_id (c ∷ cs) zero s docs h =
        subst (AllOwn client_id (c ∷ cs)) (let q : [] ≡ docs = cc in q) tt
    finished-AllOwn client_id (c ∷ cs) (suc limit) s docs h = elim (Bool-cases (is_there C s col)) [
      | inl there ↦
          let (chunks, e, own, few) =
            list_chunks_for_corpora-AllOwn C L S col zero_score client_id c cs (suc limit) s
              there in
          let same_result : ok chunks ≡ ok docs = ap finished (sym e) ∙ h in
          subst (AllOwn client_id (c ∷ cs)) (let q : chunks ≡ docs = cc in q) own
      | inr missing ↦
          let (exc, e) =
            list_chunks_for_corpora_missing C L col zero_score s client_id (c ∷ cs) limit missing
              refl in
          let raised : raise exc ≡ ok docs = ap finished (sym e) ∙ h in absurd cc
    ]

    -- The Qdrant store keeps the promise that the query handler relies on.
    pub qdrant_store-IsTenantStore : IsTenantStore qdrant_store
    qdrant_store-IsTenantStore = record {
      searched = λ v client_id corpus_ids top_k s hits h.
          (search_chunks-AllOwn C L S col zero_score v client_id corpus_ids top_k s hits h).0;
      scanned = λ client_id corpus_ids limit s docs h.
          finished-AllOwn client_id corpus_ids limit s docs h;
    }
