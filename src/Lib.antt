-- ===== src/Lib.antt =====
-- The client of Quagenticus, a tracker of requirements and documents: the TypeScript code below
-- web/src.
-- The pages read and write the data of a server through web/src/lib/api.ts; what they read is kept
-- in a cache (TanStack Query) under the keys of web/src/lib/queryKeys.ts, and the hooks below
-- web/src/hooks say which request each operation makes and which entries of the cache it renews.
-- web/src/lib/events.ts renews entries when the server reports a change. The board page lets the
-- user drag cards between columns, shows the result before the server has answered, and rolls it
-- back when the server refuses; the document editor saves by itself and resolves conflicts of
-- versions.
--
-- The files, and the code that each is about:
-- - Base and its children: Boolean tests, lists, dictionaries and texts over the native numbers.
-- - Api/Types, Api/Documents, Api/Catalogs, Api/Activity, Api/Results: the interfaces of
--   web/src/lib/api.ts as records.
-- - Api/Session: `parse`, `request` and `session` of web/src/lib/api.ts; the server is a
--   parameter, with a state of its own, and the calls of it are recorded. Api/Upload: `uploadXHR`.
--   Api/Flight: requests and uploads at the same time, which share the promise of
--   `session.refresh`.
-- - BoardOrder: `neighbours` and `arrayMove` of web/src/lib/boardOrder.ts.
-- - BoardPage: the columns of web/src/pages/Board.tsx and `onDragOver`; BoardPage/Drop:
--   `onDragEnd` with `askTransitionExtras` of web/src/components/requirement/StatusSelect.tsx;
--   BoardPage/Drop/Reply: the optimistic update and the callbacks of the move; BoardPage/Session:
--   the drag from its start on, as a sequence of events.
-- - Diff: `diffLines` of web/src/lib/diff.ts, whose table is a list of rows.
-- - Cache and Cache/Keys: query keys, and what an operation on the cache renews; Hooks and its
--   children: one definition for each query or mutation below web/src/hooks.
-- - Events: the pending events, the timer and `flush` of web/src/lib/events.ts.
-- - Auth: the store of web/src/lib/auth.ts, and `configureDates` of web/src/lib/dates.ts.
-- - DocumentEditor: the saving of web/src/pages/DocumentEditor.tsx.
-- - MarkdownToolbar: `applyAction` of web/src/components/editor/MarkdownToolbar.tsx.
-- - Refs: `tokenizeRefs` of web/src/lib/refs.ts; the matches of its pattern are an argument.
--   Refs/Trigger: `detectTrigger`, whose two patterns are written out as scans, and
--   `suggestTypesFor`.
-- - Markdown: the links that web/src/components/markdown/remarkRefs.ts makes, and what
--   web/src/components/markdown/Markdown.tsx shows for them.
-- - MarkdownEditor: the text, the suggestions, the keys and the uploads of
--   web/src/components/editor/MarkdownEditor.tsx.
-- - RequirementsList: the filters, the order, the page, the selection and the saved views of
--   web/src/pages/RequirementsList.tsx.
-- - DocumentsList: the views and the path of web/src/pages/DocumentsList.tsx.
-- - Comments and Timeline: the threads of web/src/components/comments/CommentThread.tsx, and the
--   groups of web/src/components/comments/ActivityTimeline.tsx.
-- - Dialogs: the store of web/src/components/ui/Confirm.tsx.
-- - StatusesAdmin: the order of the statuses of web/src/components/admin/WorkflowAdmin.tsx.
-- - WorkflowAdmin: the rules of `TransitionsAdmin` of web/src/components/admin/WorkflowAdmin.tsx.
-- - RequirementDetail: the description, the title and the conflicts of
--   web/src/pages/RequirementDetail.tsx.
-- - CreateRequirement: the form of web/src/components/requirement/CreateRequirementModal.tsx, and
--   the request that it sends.
-- - Tests: runs on small inputs, and the theorems applied to them.
--
-- State is passed explicitly. A handler that the code interrupts with `await` is cut there, and
-- the parts are events that may come in any order; the theorems on runs are about all such orders.
-- Where the code throws, the result is `none` or an outcome of its own. Every loop is structural
-- recursion but one: the loop of `breadcrumbs` has fuel, and one round more than the folder is
-- deep is enough. `undefined` and `null` are `none`; the empty string, which is false in a test,
-- is told apart by `truthy`. Cells of the table of `diffLines` are taken modulo 2 ^ 32, as
-- `Uint32Array` does. Numbers that the client only carries are natural numbers.
--
-- Not modelled: the server (Go) and the database; the browser and the libraries, whose functions
-- are parameters (`trim`, the encoding of a query, the printing of a number); rendering; the
-- regular expressions of web/src/lib/refs.ts but those of `detectTrigger`, and the functions there
-- that only use them; the command palette, the side fields and the links of a requirement, and the
-- panels of administration but the statuses and the workflow; and the pages that only show data.
pub mod Base
pub mod Api
pub mod BoardOrder
pub mod BoardPage
pub mod Diff
pub mod Cache
pub mod Hooks
pub mod Auth
pub mod Events
pub mod DocumentEditor
pub mod Markdown
pub mod MarkdownToolbar
pub mod Refs
pub mod RequirementsList
pub mod Timeline
pub mod Comments
pub mod Dialogs
pub mod DocumentsList
pub mod MarkdownEditor
pub mod StatusesAdmin
pub mod WorkflowAdmin
pub mod RequirementDetail
pub mod CreateRequirement
pub mod Tests
