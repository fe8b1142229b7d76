-- ===== src/Spanningtree.antt =====
-- The minimum spanning trees of spanningtree.
pub mod Queue
pub mod Bitmap
pub mod Adjmatrix
pub mod Adjlist
pub mod Reach
pub mod Kruskal
pub mod Countsort
mod Examples
