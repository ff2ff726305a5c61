-- ===== src/Retrieval.antt =====
-- app/implementations/pgvector_store.py, the query: hybrid_search, with the statement _HYBRID_SQL
-- clause by clause. What the extensions of Postgres compute is a parameter: the distance of two
-- vectors, the full-text rank of a chunk for a query, and whether its tags contain the filters.
-- Scores are exact fractions; rows that an ORDER BY does not tell apart keep the table's order.
pub mod Boundary
use doc_chat_platform.VectorStore.{has_id}
use doc_chat_platform.Persist.{document_has_id}
use doc_chat_platform.Sql.Sorting.{sort_with}
use doc_chat_platform.Sql.{find_where, select_where}
use doc_chat_platform.Models.{Chunk, Document, Tags, is_ready}
use doc_chat_platform.Database.{Database}
use doc_chat_platform.Text.{Text, strip}
use doc_chat_platform.Base.{
  [], none, some, suc, ok, err, Bool, List, Option, ◌*◌, is_none, ℕ, ltb, map, ◌∷◌, ◌++◌, ◌+◌,
  get_or_else, ◌||◌, ◌&&◌, if◌then◌else◌, ◌==◌, max, take, Result, not, is_some, any, is_empty,
}

pub record Engine : Type 0 where
  -- `<=>`
  pub distance : List ℕ → List ℕ → ℕ
  -- `ts_rank_cd`, for a chunk that the query matches
  pub text_score : Text → Chunk → Option ℕ
  -- the containment of each filter in `ch.tags`
  pub tagged : Chunk → Bool

-- A fraction, `num / den`.
pub record Score : Type 0 where
  pub num : ℕ
  pub den : ℕ

unfoldable pub higher : Score → Score → Bool
higher a b = ltb (b.num * a.den) (a.num * b.den)

-- COALESCE(1.0 / (:k + rank), 0.0), where k is `_RRF_K`
unfoldable pub reciprocal : Option ℕ → Score
reciprocal none = record { num = 0; den = 1 }
reciprocal (some rank) = record { num = 1; den = 60 + rank }

unfoldable pub add_scores : Score → Score → Score
add_scores a b = record { num = a.num * b.den + b.num * a.den; den = a.den * b.den }

-- A row of `vec` or `fts`.
pub record Ranked : Type 0 where
  pub id : ℕ
  pub rank : ℕ

-- A row of `fused`; its score is computed from the ranks.
pub record Fused : Type 0 where
  pub id : ℕ
  pub vector_rank : Option ℕ
  pub text_rank : Option ℕ

unfoldable pub score_of : Fused → Score
unfolding reciprocal add_scores
score_of f = add_scores (reciprocal f.vector_rank) (reciprocal f.text_rank)

pub record SearchResult : Type 0 where
  pub chunk_id : ℕ
  pub document_id : ℕ
  pub content : Text
  pub contextual_header : Option Text
  pub section_path : List Text
  pub score : Score
  pub filename : Text
  pub ordinal : ℕ
  pub tags : Tags
  pub vector_rank : Option ℕ
  pub text_rank : Option ℕ

abbrev pub is_ready_document : ℕ → Document → Bool
is_ready_document i d = d.id == i && is_ready d.status

-- ROW_NUMBER()
unfoldable pub number_from : ℕ → List Chunk → List Ranked
number_from n [] = []
number_from n (c ∷ cs) = record { id = c.id; rank = n } ∷ number_from (suc n) cs

unfoldable pub rank_of : ℕ → List Ranked → Option ℕ
rank_of i [] = none
rank_of i (r ∷ rs) = let rest = rank_of i rs in if r.id == i then some r.rank else rest

abbrev pub from_vector : List Ranked → Ranked → Fused
from_vector fts r = record { id = r.id; vector_rank = some r.rank; text_rank = rank_of r.id fts }

abbrev pub from_text : Ranked → Fused
from_text r = record { id = r.id; vector_rank = none; text_rank = some r.rank }

abbrev pub unpaired : List Ranked → Ranked → Bool
unpaired vec r = is_none (rank_of r.id vec)

-- vec FULL OUTER JOIN fts ON fts.id = vec.id
unfoldable pub full_outer_join : List Ranked → List Ranked → List Fused
unfolding rank_of
full_outer_join vec fts =
    map (from_vector fts) vec ++ map from_text (select_where (unpaired vec) fts)

abbrev pub distance_to : Engine → List ℕ → Chunk → ℕ
distance_to engine query c = elim c.embedding [ none ↦ 0 | some v ↦ engine.distance query v ]

abbrev pub nearer : Engine → List ℕ → Chunk → Chunk → Bool
nearer engine query x y = ltb (distance_to engine query x) (distance_to engine query y)

abbrev pub better_text : Engine → Text → Chunk → Chunk → Bool
better_text engine query x y =
    ltb (get_or_else (engine.text_score query y) 0) (get_or_else (engine.text_score query x) 0)

-- A vector that is not there cannot be cast by the database.
pub data SearchError : Type 0 where
  invalid_vector : SearchError

module _ (engine : Engine) (workspace_id : ℕ) (db : Database) where
  -- The conditions that both halves share.
  unfoldable pub searchable : Chunk → Bool
  searchable c =
      c.workspace_id == workspace_id
      && (any (is_ready_document c.document_id) db.documents && engine.tagged c)

  abbrev pub in_vec : Chunk → Bool
  in_vec c = searchable c && is_some c.embedding

  abbrev pub in_fts : Text → Chunk → Bool
  in_fts query c = searchable c && is_some (engine.text_score query c)

  unfoldable pub vec : List ℕ → ℕ → List Ranked
  unfolding searchable number_from
  vec query_vector pool =
      number_from 1
        (take pool (sort_with (nearer engine query_vector) (select_where in_vec db.chunks)))

  unfoldable pub fts : Text → ℕ → List Ranked
  unfolding searchable number_from
  fts query pool =
      number_from 1
        (take pool (sort_with (better_text engine query) (select_where (in_fts query) db.chunks)))

  abbrev pub row_of : Fused → Chunk → Document → SearchResult
  row_of f c d = record {
    chunk_id = c.id;
    document_id = c.document_id;
    content = c.content;
    contextual_header = c.contextual_header;
    section_path = c.section_path;
    score = score_of f;
    filename = d.filename;
    ordinal = c.ordinal;
    tags = c.tags;
    vector_rank = f.vector_rank;
    text_rank = f.text_rank;
  }

  abbrev pub with_document_row :
      Fused → Chunk → Option Document → List SearchResult → List SearchResult
  with_document_row f c none rest = rest
  with_document_row f c (some d) rest = row_of f c d ∷ rest

  abbrev pub with_chunk : Fused → Option Chunk → List SearchResult → List SearchResult
  with_chunk f none rest = rest
  with_chunk f (some c) rest =
      with_document_row f c (find_where (document_has_id c.document_id) db.documents) rest

  -- fused JOIN chunks JOIN documents, on the ids
  unfoldable pub joined_rows : List Fused → List SearchResult
  joined_rows [] = []
  joined_rows (f ∷ fs) = with_chunk f (find_where (has_id f.id) db.chunks) (joined_rows fs)

  -- ORDER BY fused.score DESC, ch.ordinal
  unfoldable pub ranks_before : SearchResult → SearchResult → Bool
  unfolding higher
  ranks_before x y =
      higher x.score y.score || (not (higher y.score x.score) && ltb x.ordinal y.ordinal)

  unfoldable pub query_rows : Text → List ℕ → ℕ → List SearchResult
  unfolding vec fts full_outer_join joined_rows ranks_before
  query_rows query query_vector limit =
      let pool = max (limit * 4) 20 in
      take limit (
        sort_with ranks_before
          (joined_rows (full_outer_join (vec query_vector pool) (fts query pool))))

  unfoldable pub hybrid_search : Text → Option (List ℕ) → ℕ → Result SearchError (List SearchResult)
  unfolding query_rows strip
  hybrid_search query none limit = if is_empty (strip query) then ok [] else err invalid_vector
  hybrid_search query (some query_vector) limit = ok (query_rows query query_vector limit)
