-- ===== src/Collections.antt =====
-- crates/scheduler-core/src/collection.rs: the configuration of a parameter collection, and the
-- texts by which the store keeps the states of batches and their items. The url crate parses URLs:
-- `parse_scheme` is the scheme of a URL, where it is one.
pub mod States
use task_scheduler.Prelude.{
  >>=-eq-ok, ℕ, [], String, ◌≡◌, Bool, true, false, not, ◌&&◌, ◌||◌, Option, none, some, leb, ltb,
  str_eq, Result, err, ok, is_ok, ◌>>=◌, ◌>>◌, or_fail, guard, arith, Option-cases, inl, inr, ◌≤◌,
  eq_iff,
}
use task_scheduler.Domain.AgentId.{codes}
use task_scheduler.Parameters.Text.{Text, same_text, trim}

abbrev pub default_collection_page_size : ℕ
default_collection_page_size = 500

abbrev pub max_collection_page_size : ℕ
max_collection_page_size = 1000

abbrev pub default_collection_max_items : ℕ
default_collection_max_items = 10000

abbrev pub max_collection_items : ℕ
max_collection_items = 10000

abbrev pub default_collection_max_active_runs : ℕ
default_collection_max_active_runs = 32

abbrev pub max_collection_active_runs : ℕ
max_collection_active_runs = 1000

abbrev pub default_poison_distinct_nodes : ℕ
default_poison_distinct_nodes = 2

-- Of the `ArtifactRef` only the URI is read.
pub record ParameterCollectionSpec : Type 0 where
  pub source_uri : Text
  pub page_size : ℕ
  pub max_items : ℕ
  pub max_active_runs : ℕ
  pub poison_distinct_nodes : ℕ

-- The specification that a document with only a source is read as.
abbrev pub default_collection : Text → ParameterCollectionSpec
default_collection uri = record {
  source_uri = uri;
  page_size = default_collection_page_size;
  max_items = default_collection_max_items;
  max_active_runs = default_collection_max_active_runs;
  poison_distinct_nodes = default_poison_distinct_nodes;
}

pub data CollectionError : Type 0 where
  empty_uri invalid_uri unsupported_scheme bad_page_size bad_max_items : CollectionError
  bad_max_active_runs bad_poison_distinct_nodes : CollectionError

-- (low..=high).contains(&n)
abbrev pub is_within : ℕ → ℕ → ℕ → Bool
is_within low high n = leb low n && leb n high

abbrev pub is_supported_scheme : String → Bool
is_supported_scheme s =
    str_eq s "file" || (str_eq s "http" || (str_eq s "https" || str_eq s "connector"))

module _ (parse_scheme : Text → Option String) where
  -- ParameterCollectionSpec::validate
  unfoldable pub validate_collection : ParameterCollectionSpec → Result CollectionError (Unit {0})
  validate_collection c = do
    let source = trim c.source_uri
    guard (not (same_text source [])) empty_uri
    scheme ← or_fail (parse_scheme source) invalid_uri
    guard (is_supported_scheme scheme) unsupported_scheme
    guard (is_within 1 max_collection_page_size c.page_size) bad_page_size
    guard (is_within 1 max_collection_items c.max_items) bad_max_items
    guard (is_within 1 max_collection_active_runs c.max_active_runs) bad_max_active_runs
    guard (is_within 2 32 c.poison_distinct_nodes) bad_poison_distinct_nodes

  -- A collection that the check accepts is bounded: pages of 1 to 1,000 items, 1 to 10,000 items in
  -- all, 1 to 1,000 runs at a time, and 2 to 32 nodes before an item counts as poison.
  pub validate_collection_bounds :
      (c : ParameterCollectionSpec)
      → validate_collection c ≡ ok tt
      → (1 ≤ c.page_size)
        × (c.page_size ≤ 1000)
        × (1 ≤ c.max_items)
        × (c.max_items ≤ 10000)
        × (1 ≤ c.max_active_runs)
        × (c.max_active_runs ≤ 1000)
        × (2 ≤ c.poison_distinct_nodes)
        × (c.poison_distinct_nodes ≤ 32)
  unfolding validate_collection
  validate_collection_bounds c h =
      let source = trim c.source_uri in
      let (_, _, h1) = >>=-eq-ok (guard (not (same_text source [])) empty_uri) _ h in
      let (scheme, _, h2) = >>=-eq-ok (or_fail (parse_scheme source) invalid_uri) _ h1 in
      let (_, _, h3) = >>=-eq-ok (guard (is_supported_scheme scheme) unsupported_scheme) _ h2 in
      ground arith
