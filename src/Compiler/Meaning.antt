-- ===== src/Compiler/Meaning.antt =====
-- What segments and configurations mean, said of the domain model and not of the rules that they are compiled
-- to. The children prove that the compiled rules evaluate to this.
pub mod Segments
pub mod Serving
pub mod Choice
pub mod Values
pub mod Flags
