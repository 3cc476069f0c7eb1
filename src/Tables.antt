-- ===== src/Tables.antt =====
-- The admin's tables. Under packages/backend: RepositoryManager of
-- common/src/infrastructure/database/repository-extensions/repository-manager.ts, CacheInvalidator of
-- common/src/infrastructure/cache/cache-invalidator.ts, and of core-api/src/modules/admin/services:
-- admin-crud.service.ts, crud-operations/schema-builder.ts and crud-operations/operations. The
-- repositories, the queue and the cache, with the state `S` that they work on, are arguments.
pub mod Operations
pub mod Methods
pub mod Service
pub mod Schema
mod Tests
use Prim.Native.String
use package.text.Mathlib.Text.{◌==◌ as str_eq}
use express_nest_blueprint.Base.{
  ℕ, String, Bool, true, false, Option, none, some, List, [], ◌∷◌, get_or, if◌then◌else◌,
}
use express_nest_blueprint.Base.Settled.{Settled, ok, throws, and_then, returns}
use express_nest_blueprint.Base.Map
use express_nest_blueprint.Base.Map.{Map}
use express_nest_blueprint.Guards.{JwtPayload}
use express_nest_blueprint.Bulk.{RecordId, is_truthy_id}
use express_nest_blueprint.Pages.Columns.{ColumnMetadata}
use express_nest_blueprint.Pages.{Retrieved}

pub record CacheConfig : Type 0 where
  pub prefix : String
  pub detail_key : Option (RecordId → String)

pub record Actions : Type 0 where
  pub create : Option Bool
  pub update : Option Bool
  pub delete : Option Bool

-- An optional text is absent where it is empty, which the code takes for absent; so is the mapping.
pub record CrudTableOptions : Type 0 where
  pub category : String
  pub name : String
  pub display_name : Option String
  pub command_queue : Option String
  pub operation_mapping : Map String
  pub cache_config : Option CacheConfig
  pub actions : Option Actions

-- A repository has some of the operations. `update` and `delete` take the user last, as those of
-- BaseRepository do after the columns and the connection, which nobody gives here.
pub record CrudRepository (V S : Type 0) : Type 0 where
  pub create : Option (Map V → S → Settled Unit × S)
  pub update : Option (RecordId → Map V → Option JwtPayload → S → Settled Unit × S)
  pub delete : Option (RecordId → Option JwtPayload → S → Settled Unit × S)
  pub find_by_id : Option (RecordId → S → Settled (Option (Map V)) × S)
  pub retrieve_data_with_pagination :
      Option (ℕ → ℕ → Option String → S → Settled (Retrieved (Map V)) × S)
  pub get_column_metadata : Option (List ColumnMetadata)

pub record RepositoryEntry (V S : Type 0) : Type 0 where
  pub repository : CrudRepository V S
  pub metadata : CrudTableOptions

abbrev pub join2 : String → String → String
join2 = String.◌++◌

-- `${category}:${name}`.
unfoldable pub key_of : String → String → String
key_of category name = join2 category (join2 ":" name)

-- `Table ${category}:${name} not found or unsupported`.
unfoldable pub unsupported_table : String → String → String
unfolding key_of
unsupported_table category name =
    join2 "Table " (join2 (key_of category name) " not found or unsupported")

module _ {V S : Type 0} where
  -- `registerRepository`, on the metadata of the class.
  unfoldable pub register_repository :
      Map (RepositoryEntry V S)
      → CrudRepository V S
      → Option CrudTableOptions
      → Map (RepositoryEntry V S)
  unfolding key_of Map.set
  register_repository repositories repository none = repositories
  register_repository repositories repository (some metadata) =
      Map.set repositories (key_of metadata.category metadata.name)
        (record { repository = repository; metadata = metadata })

  unfoldable pub get_repository : Map (RepositoryEntry V S) → String → Option (RepositoryEntry V S)
  unfolding Map.get
  get_repository repositories key = Map.get repositories key

  -- `findRepositoryByName`: the first that has the name.
  unfoldable pub find_repository_by_name :
      Map (RepositoryEntry V S) → String → Option (RepositoryEntry V S)
  find_repository_by_name [] name = none
  find_repository_by_name ((k, entry) ∷ repositories) name =
      let found = find_repository_by_name repositories name in
      if str_eq entry.metadata.name name then some entry else found

  columns_of : Option (RepositoryEntry V S) → List ColumnMetadata
  columns_of none = []
  columns_of (some entry) = get_or entry.repository.get_column_metadata []

  unfoldable pub get_table_columns : Map (RepositoryEntry V S) → String → List ColumnMetadata
  unfolding find_repository_by_name columns_of
  get_table_columns repositories name = columns_of (find_repository_by_name repositories name)

-- CacheService, as the invalidation uses it.
pub record CacheOperations (S : Type 0) : Type 0 where
  pub invalidate_tags : List String → S → Settled Unit × S
  pub delete_key : String → S → Settled Unit × S

module _ {S : Type 0} (cache : CacheOperations S) where
  invalidate_prefix : String → S → Settled Unit × S
  invalidate_prefix prefix s =
      let invalidated = cache.invalidate_tags (prefix ∷ []) s in
      if str_eq prefix "" then (ok tt, s) else invalidated

  delete_detail : Option (RecordId → String) → Option RecordId → S → Settled Unit × S
  delete_detail (some detail_key) (some id) s =
      let deleted = cache.delete_key (detail_key id) s in
      if is_truthy_id (some id) then deleted else (ok tt, s)
  delete_detail _ _ s = (ok tt, s)

  invalidate_config : Option CacheConfig → Option RecordId → S → Settled Unit × S
  unfolding invalidate_prefix delete_detail
  invalidate_config none id s = (ok tt, s)
  invalidate_config (some config) id s =
      and_then (invalidate_prefix config.prefix s) (λ _ s'. delete_detail config.detail_key id s')

  unfoldable pub invalidate_cache : CrudTableOptions → Option RecordId → S → Settled Unit × S
  unfolding invalidate_config
  invalidate_cache metadata id s = invalidate_config metadata.cache_config id s
