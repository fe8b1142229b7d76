-- ===== src/Grok.antt =====
-- The pattern matcher grok, tags/grok/20090928.
pub mod Exec
pub mod Buffer
pub mod Escape
pub mod Filters
pub mod Predicate
pub mod Database
pub mod Pattern
pub mod Watch
pub mod Capture
pub mod Expand
pub mod Compile
pub mod Callout
pub mod Reaction
pub mod Program
mod Examples
