-- ===== src/Db.antt =====
-- packages/db/src: the product outbox and the migrations.
pub mod ProductOutbox
pub mod Migrations
