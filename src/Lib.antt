-- ===== src/Lib.antt =====
-- EmbX compiles descriptions of binary formats into a plan and runs the plan as a decoder and an
-- encoder. This library models the layers that both directions of the codec stand on, in the files
-- of the repository's directory src.
--
-- Prelude and its children hold what all files share: tests on numbers, integers over the native
-- numbers, lists, bits, association lists for unordered_map, and Result, a value or the message of
-- an exception or of an error parameter.
--
-- Core models src/core. Core/Symbol is Symbol.h: Scope is a root or a child with its bindings,
-- declare_in and resolve_in are Scope::declare and Scope::resolve, and the operations of
-- SymbolTable keep their names. Core/Resolver is Resolver.h and the callback directions of
-- Semantic.h. Core/Expr is Expr.h: Expr stands for a pointer that is null or a node; infer,
-- annotate and clone are inferExprType, annotateExprTypes and cloneExpr. Core/CLibrary holds what
-- the source calls of the C++ library, number parsing and floating arithmetic, as a record that
-- the definitions take as a parameter.
--
-- Runtime models src/runtime. Runtime/Host has the 64-bit words, Runtime/Bytes the two byte loops
-- and Runtime/Reader the class Reader of Runtime.h and Runtime.cpp, one function per method on a
-- record of its fields; a method that throws does so before its first assignment, so it gives the
-- new reader or the message. Whether the host is little-endian is a parameter. Runtime/Signed and
-- Runtime/Evaluator are ExpressionEvaluator.cpp, with int64_t as an integer and uint64_t as a
-- number; eval and eval_symbol are the two evaluators. Runtime/Array is Array.h. Runtime/Callbacks
-- is CallbackRegistry of Runtime.cpp; a callback is a parameter, a function of the reader or of
-- the output and its position.
--
-- Encoder/Writer models the class Writer of src/encoder/Encoder.cpp as Runtime/Reader does the
-- reader. Codec relates the two: what the writer wrote, the reader reads. Core/Types is
-- src/core/Type.h. Diagnostics models the codes and the classification of src/diagnostics.
--
-- The directory src/plan is modelled by Plan and the files below it. Plan/Model is Plan.h: the
-- operations of a plan, their lists and the cases of a variant are data types in a mutual block,
-- and an index map is an association list of places. The rest is PlanBuilder.cpp, as far as it
-- works on a plan that was lowered: Plan/Sizes has fixedTypeSize and
-- resolveIntegerPrimitive; Plan/Bounds has memberBounds and sequenceBounds, over the bounds of a
-- type as a parameter, and Plan/TypeBounds layoutBounds and the sizes it gives; Plan/Layout has
-- fixedMembersExtent and computeStructLayout, and Plan/Layout/Place what it means that a member
-- has its place; Plan/Dependencies has validateLayoutDependencies and Plan/Identities
-- and Plan/Executable validateExecutablePlan, with the functions that they
-- call. Plan/LayoutGraph is LayoutGraph.cpp: its edges and lookups, the identifiers of an
-- expression in Occurs, the walk of buildLayoutGraph in Build, and validateLayoutGraph in
-- Validate. Plan/ArrayDescriptor is ArrayDescriptor.cpp, with fixedTypeSize as a parameter, which
-- Sized instantiates with that of Plan/Sizes. Where a null operation, a division by zero or a
-- place outside a list is undefined in the source, the model has an error or no entry.
--
-- A loop is structural recursion, on a list, a number of bytes, a tree or the members of a plan,
-- except for three that follow names: the walks from a type to the types that it names,
-- in Plan/Sizes and Plan/TypeBounds, and the search for cycles in Plan/LayoutGraph/Validate.
-- These take fuel. A walk from a type visits each struct and each alias at most once on its way,
-- so the number of the entries of both indexes and one more is enough; the search passes through
-- each node at most once on its way, so the number of nodes and one more is enough. Plan/Visiting
-- counts what is left to visit.
--
-- Not modelled are the float methods of the reader and the writer, which copy the bits of a word;
-- the lowering of the intermediate form to a plan, with the values of its constants and enums and
-- the typing of its expressions; the static safety of a plan's types; the decoder and the encoder
-- over the plan; the semantic analysis and the intermediate form before it; the parser, the code
-- generators, the reports and the reflection, which read or print what other parts made.
pub mod Prelude
pub mod Core
pub mod Diagnostics
pub mod Runtime
pub mod Encoder
pub mod Codec
pub mod Plan
pub mod Tests
