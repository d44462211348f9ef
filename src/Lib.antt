-- ===== src/Lib.antt =====
-- Wirm, a library that reads WebAssembly modules and components, instruments them and writes them
-- back, and theorems about the parts that keep its indices right.
--
-- The program parses a binary into an intermediate representation (IR), in which functions, globals
-- and memories keep the indices they were given, lets its user add, delete and convert items and
-- inject operators around others, and renumbers everything when it encodes the module. For
-- components it gives each item of a scope an assumed ID while it parses, and an actual one while it
-- encodes.
--
-- The files, each with what it models (paths from the repository's root):
--
-- - Base: lists and Boolean tests over the native numbers, hash maps as lists of entries
--   (`Base/Maps`; the order in which Rust meets the entries is open, and no theorem rests on it), and
--   `Base/Results`, the outcome of an operation: a value, an error or a panic.
-- - Reorder: src/ir/module/mod.rs, `reorganize`, `get_mapping_generic` and `recalculate_ids`, over
--   any type of items with an ID, an import flag and a deletion flag (the traits `GetID` and
--   `LocalOrImport`).
-- - Reindex: src/ir/module/reindex.rs, `fix_op_id_mapping` and the functions that its macros
--   generate. wasmparser's `for_each_operator!` lists the operators with the names of their fields;
--   an operator is here the list of its named fields. `IsDeclared` says what the declarations of the
--   operators have in common: no field name twice, at most one way to name a memory, and a `dst_mem`
--   beside each `src_mem`.
-- - Instr: src/ir/types.rs, `InjectedInstrs` and `InstrumentationFlag`; Instr/Code: `Instructions`,
--   the operators of a body with their flags.
-- - Modifier: `FuncInstrFlag` of src/ir/types.rs, the instrumentation of a whole function, and
--   `FunctionModifier` of src/ir/function.rs with the methods of `Instrumenter` and `Inject`
--   (src/opcode.rs) that it has by default.
-- - Resolve: src/ir/module/mod.rs, `resolve_special_instrumentation` for one function and its
--   helpers: Resolve has the helpers and Resolve/Run the loop. A round of the loop is divided into
--   its stages, and each stage that may `continue` says so. The type of the block that wraps a
--   function with instrumentation at its exit is a parameter. A body is resolvable (`IsResolvable`)
--   where its blocks nest, no operator follows the end of the function, and a block alternate stands
--   at the start of a block only.
-- - Emit: src/ir/module/mod.rs, `encode_function`. The reencoder of wasm-encoder is the parameter
--   `reencode`, which may refuse an operator. An alternate that is `None` keeps the operator, and an
--   empty one removes it. The source renumbers the operators in place in a copy of the module; the
--   body that this leaves, which only the report of side effects reads, is not part of the result.
-- - Body: src/ir/types.rs, `DataType` and `Body`, and `add_local` and `add_locals` of
--   src/ir/module/module_functions.rs.
-- - ModuleIr: src/ir/module/module_imports.rs (ModuleIr/Imports),
--   src/ir/module/module_functions.rs (ModuleIr/Funcs), and the functions of `Module` in
--   src/ir/module/mod.rs that add, delete and convert functions. A module is valid (`IsValid`) where
--   each function's ID is its index, the live imported functions follow the live function imports
--   of the import section, and without local functions the counted imports are all functions.
-- - TypeSection: src/ir/module/module_types.rs, `Types` with its equality, and `ModuleTypes`;
--   TypeSection/Forms: its ways to add a type. A section is valid where `types_map` names an equal
--   type for every type of the section and for no other, and every ID is below the number of types.
--   wasmparser's `PackedIndex` is the parameter `P`.
-- - SubIterator: src/subiterator/function_subiterator.rs and src/subiterator/module_subiterator.rs;
--   SubIterator/Component: src/subiterator/component_subiterator.rs. A cursor is described by `walk`,
--   which lists the places that it meets.
-- - Globals: the functions of `Module` in src/ir/module/mod.rs that add, delete and change globals,
--   over ModuleIr/Globals, which is src/ir/module/module_globals.rs.
-- - Space: src/ir/component/idx_spaces.rs, `Space` and `index_space_of`, and the sections of
--   src/ir/component/section.rs.
-- - IdxSpace: src/ir/component/idx_spaces.rs, `IdxSpace` with its four maps and its cache. Its
--   abstract view (`slot`) is the list of the IDs of each index of each vector. A space is valid
--   where every ID given out is below the counter and stands in one place, and the cache is right.
-- - IndexScope: src/ir/component/idx_spaces.rs, `IndexScope` and `IndexStore`, and `ScopeStack` of
--   src/ir/component/visitor/utils.rs.
-- - ActualIds: src/encode/component/assign.rs, the IDs given while a component is encoded.
--
-- The files named Tests hold small runs and the theorems at concrete inputs.
--
-- Conventions. Indices of Rust's `usize` and `u32` are natural numbers, but in `add_local`, where
-- the sums wrap around at 2 ^ 32, and in the block that a branch names (`save_flagged_body_to_resolve`),
-- where the difference does. A panic (an index out of range, `unwrap`, `expect`, `todo!`) is the
-- result `panic`. The semantics are those of a release build: debug assertions do not panic. Every
-- loop goes over a list, but for two. The loop over the functions that are skipped (`skips_from`)
-- may run once for each function of the module, and it moves on by one each time. The specification
-- `walk` takes as many steps as it is told, and its theorems say that one step for each operator is
-- enough.
--
-- Not modelled: parsing and the encoding of sections, which call wasmparser and wasm-encoder;
-- the side effects that `resolve_special_instrumentation` reports (`add_injections`), and its loop
-- over the functions; memories, tables and exports of a module; the iterators over the
-- subiterators; the traversal of components (visitor, driver) and the rewriting of their references
-- (fix_indices.rs); tags, but for those of injected instructions and of types; the Wasm text of names
-- and custom sections.
pub mod Base
pub mod Reorder
pub mod Reindex
pub mod Instr
pub mod Emit
pub mod Space
pub mod SubIterator
pub mod IdxSpace
pub mod IndexScope
pub mod ActualIds
pub mod Body
pub mod ModuleIr
pub mod Modifier
pub mod Resolve
pub mod TypeSection
pub mod Globals
