-- ===== src/Tests.antt =====
-- Concrete runs and inputs: a counter kept in the memory store, and orders.
mod Counter
mod Tailed
mod Repository
mod Orders
mod Routes
mod Sql
mod Http
mod Lambda
mod Serializer
mod Bolt
mod Dynamo
mod DynamoSave
mod Opaque
mod OpaqueCosmos
mod Cosmos
mod Client
mod Structure
mod OrderSort
mod Generation
mod Naming
mod TsClient
