-- ===== src/Tests.antt =====
-- Tests on concrete inputs, and the properties applied to some.
mod WildcardTests
mod MacroTests
mod RulesetTests
mod VectorTests
mod CollectorTests
mod AppTests
mod SignalTests
mod CommonTests
mod DropTests
mod CompilerTests
mod ReaderTests
mod CompileTests
mod EngineTests
mod TextTests
mod DetailsTests
