-- ===== src/Lib.antt =====
-- taskjuggler-lsp: a language server for TaskJuggler projects, in C.
--
-- An editor sends the server the text of its documents and asks questions about them. The scanner and
-- the parser turn a document into a list of tokens and a tree of declarations (`src/parser.h`); the
-- handlers answer from these. A file of this library models a file of the program:
--
-- PathUtil (`src/pathutil.c`): file URIs and paths. A C string is the list of its bytes without the
-- terminating NUL. `realpath` is an argument of the definitions that call it.
-- Syntax (`src/parser.h`): positions, tokens, dependencies, declarations. A pointer to a node is the
-- chain of the node and its ancestors, since the handlers only climb.
-- Lookup (`src/document_symbol.c`, `src/dependency.c`): the node, the dependency and the task
-- declaration at a cursor. The binary search has as many rounds of fuel as there are tokens, and a
-- round leaves fewer candidates.
-- SemanticTokens (`src/semantic_tokens.c`, and the record of tokens in `src/parser.c`): the
-- classification of tokens and the delta encoding of the highlighted ones.
-- TokensDelta (`src/semantic_tokens_delta.c`): the edits between two encodings, by a Myers diff. The
-- search has a round of fuel for each edit distance up to the two lengths together, and it is proved
-- that it ends within them; grouping the steps has a round for each step.
-- JobQueue (`src/job_queue.c`): the queue of jobs between threads, as records linked in a store. A run
-- of the queue is a sequence of steps, each under its mutex; a waiting worker takes no step.
-- FoldingRange (`src/folding_range.c`): the foldable ranges, by recursion on the tree and a stack of
-- open brackets.
-- QualifiedId (`sym_qualified_id` of `src/hover.c`): the dotted path of a declaration.
-- ProjectTree (`src/project_tree.c`): the tree of a whole project, as nodes in a store, and the
-- resolution of references with its memo cells. `strtok_r` is modelled by what it yields.
-- Arena (`src/arena.c`): the regions carved from blocks.
-- Diagnostics (`src/diagnostics.c`): sets of diagnostics, and what the editor shows after publication.
-- Lifecycle (`src/lifecycle.c`): the text of a document after the changes that the editor sends.
-- CcWarnings (`src/diagnostics.c`): the warnings about a missing or malformed compile_commands.json.
-- Server (`src/server.c`): the method table, the reader's classification of a message and the dispatch
-- of jobs. The JSON values that the code reads of a message are its fields; the handlers are a parameter.
-- ThreadPool (`src/threadpool.c`, `src/main.c`): the reader, the coordinator and the query workers, which
-- take steps in any order. Each queue is the list of its jobs, which JobQueue refines. The snapshot that
-- a query pins is the number of notifications applied before.
-- References (`src/references.c`, `src/document_highlight.c`, `src/definition.c`): the walks over the
-- project tree that collect references and highlights. A walk has fuel for the levels of the tree.
-- TokenOwners (`src/parser.c`): the owner of each token. The tree is a data type, so the pass recurs on
-- it and takes no fuel.
-- DocumentStore (`src/document_store.c`): the table of documents, as the list of its slots.
-- Workspace (`src/workspace.c`): the projects of a workspace snapshot. The search over includes has a
-- round of fuel for each slot and one more, and ends within them.
-- Snapshots (`src/query_context.c`, `src/document_store.c`, `src/workspace.c`, `src/server.c`,
-- `src/diag_worker.c`): the reference counts of the two kinds of snapshots.
-- DiagRegistry (`src/diag_worker.c`): the registry of the threads of diagnostics. The loop that removes
-- has a round of fuel for each worker.
-- Tj3 (`src/tj3.c`): the paths at which documents are staged, and the diagnostics in the output of the
-- compiler.
-- Base holds the Boolean tests, the list functions over the native numbers and C strings.
--
-- How the parts interact: Lifecycle keeps the text of a document, from which the parser makes the
-- tokens and the declarations of Syntax. The tokens are searched by Lookup, folded by FoldingRange and
-- encoded by SemanticTokens; TokensDelta compares two such encodings. ProjectTree finds the node of a
-- declaration by its QualifiedId. ThreadPool carries a message from the reader over the two queues of
-- JobQueue to the handler that Server names. A parse is a snapshot in a slot of DocumentStore;
-- Workspace divides the parsed documents into projects, and Snapshots counts who holds what.
-- Diagnostics carries the results of the compiler to the editor.
--
-- Numbers are natural numbers. Where the source counts in 32 or 64 bits, the values are sizes of texts
-- and arrays in memory, and no operation modelled here comes near the bound; the signed diagonals of
-- the diff are kept as offsets that are not negative, the ids of requests are only compared, and the
-- subtractions of semantic tokens are written out modulo 2 ^ 32. The line number in the
-- compiler's output is the 32-bit pattern of an int. Memory runs out nowhere, as the source exits then.
--
-- Not modelled: the scanner and grammar, which are generated from `src/lexer.l` and `src/grammar.y`;
-- the JSON library; input and output, child processes and signals; the choice of a query's documents and the copies of
-- declarations into a project's tree; and the other request handlers.
pub mod Base
pub mod PathUtil
pub mod Syntax
pub mod Lookup
pub mod SemanticTokens
pub mod TokensDelta
pub mod JobQueue
pub mod FoldingRange
pub mod QualifiedId
pub mod ProjectTree
pub mod Arena
pub mod Diagnostics
pub mod Lifecycle
pub mod CcWarnings
pub mod DocumentStore
pub mod Workspace
pub mod Snapshots
pub mod DiagRegistry
pub mod Tj3
pub mod TokenOwners
pub mod References
pub mod Server
pub mod ThreadPool
