-- ===== src/Dao.antt =====
-- server/repository/dao: the data access objects over the two tables, and the Redis cache of the
-- mappings by Clerk id.
pub mod Users
pub mod MappingCache
pub mod Mappings
