-- ===== src/Catalog.antt =====
-- CreateCatalogHandler (internal/handlers/create_catalog.go), in the order of its file: the images of a
-- reference, the discovery of references, the steps of
-- Handle, and Handle itself.
pub mod Images
pub mod Discovery
pub mod Steps
pub mod Handler
