-- ===== src/Embedding/Examples.antt =====
-- A document of two chunks, of which one has its vector, in the sample batch.
use ai_brain.Prelude.{
  ℕ, ◌≡◌, refl, true, false, Option, none, some, [], ◌∷◌, find_by, oldest, is_empty, opt_eq, map,
  length,
}
use ai_brain.Batch.Model.{running, batch_keyed}
use ai_brain.Claims.Rows.{group_keyed}
use ai_brain.Claims.Groups.{Store}
use ai_brain.Claims.Bounds.{Within}
use ai_brain.Claims.Samples.{store, group, file, batch, store-Within}
use ai_brain.Claims.Reservations.{reserve_embeddings}
use ai_brain.Embedding.{
  PipelineDocument, DocumentChunk, Library, Backend, vectors, unembedded,
  resolve_owning_running_batch, embed_claimed_group, embed_next,
}
use ai_brain.Embedding.Accounting.{Accounted, embed_claimed_group-Accounted}
use ai_brain.Embedding.Bounds.{embed_next-Within}

abbrev tables : Store
tables = record (store running) {
  instances = record (file 2 "/t/b.txt") { content_identity_group_id = some 7 } ∷ [];
}

abbrev chunk : ℕ → Option ℕ → DocumentChunk ℕ
chunk index vector = record {
  id = index;
  document_id = "d";
  chunk_index = index;
  content = "c";
  embedding = vector;
}

abbrev document : PipelineDocument
document = record { id = "d"; content_identity_group_id = some 7 }

abbrev shelf : Library ℕ
shelf = record {
  tables = tables;
  documents = document ∷ [];
  chunks = chunk 0 (some 9) ∷ chunk 1 none ∷ [];
}

abbrev backend : Backend ℕ
backend = record {
  embed = λ texts. vectors (map (λ t. 5) texts);
  free_at = λ path. 0;
  reachable = true;
  now = 400;
}

owner : resolve_owning_running_batch 7 tables ≡ some (batch running)
unfolding resolve_owning_running_batch oldest
owner = refl

one_left : is_empty (unembedded "d" shelf.chunks) ≡ false
unfolding unembedded
one_left = refl

found : find_by (λ d. opt_eq d.content_identity_group_id (some 7)) shelf.documents ≡ some document
unfolding find_by
found = refl

embed_claimed_group-Accounted_example :
    Accounted backend
      (reserve_embeddings backend.free_at backend.reachable group.id group.claim_generation
        (batch running).id
        (length (unembedded "d" shelf.chunks))
        none
        shelf.tables).0.0
      (batch running)
      (unembedded "d" shelf.chunks)
      shelf
      (embed_claimed_group backend "w1" group none shelf)
embed_claimed_group-Accounted_example =
    embed_claimed_group-Accounted backend "w1" group none shelf document (batch running) (tt, tt)
      found one_left owner

embed_next-Within_example :
    Within (embed_next backend (λ id. false) "w2" 50 200 201 none shelf).1.tables
embed_next-Within_example =
    embed_next-Within backend (λ id. false) "w2" 50 200 201 none shelf (tt, tt) store-Within
