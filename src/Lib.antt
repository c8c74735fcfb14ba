-- ===== src/Lib.antt =====
-- Pockode's web client: the logic behind its chat, its lists, its navigation and its connection, with
-- the connection of the cluster's user interface.
--
-- The client (web/src) shows chats with coding agents. A server sends events over one WebSocket;
-- a reducer turns them into messages, the hooks keep the state of what is open, and the URL says
-- what is shown.
--
-- Chat: web/src/types/message.ts (Chat/Message) and web/src/lib/messageReducer.ts. Chat/Event has
--   `normalizeEvent`, Chat/Parts `applyEventToParts`, Chat/Updates the functions that revise parts in
--   place (`expirePendingDialogs`, `updateQuestionStatus`, ...), Chat/Reducer `applyServerEvent` and
--   `replayHistory`. Where the source compares arrays by identity, `Update` carries a flag.
--   Chat/Session is web/src/hooks/useChatMessages.ts: a record of the hook's state, and a function
--   for each effect and callback. The other files of Chat/ hold proofs, and the views of a chat
--   that they speak of.
-- Navigation: web/src/lib/routes.ts (Navigation/Routes), web/src/lib/navigation.ts
--   (Navigation/Build) and web/src/hooks/useRouteState.ts (Navigation/RouteState).
-- Ws: web/src/lib/wsStore.ts. Ws/State has the store and the variables of its module in one
--   record, Ws/Watch the maps of callbacks, Ws/Connection one function for each handler of a
--   socket, timer or response, Ws/Notification `handleNotification`, and Ws/Subscribe the actions
--   that subscribe and unsubscribe. The steps of the connection are the data type `Step`.
--   Ws/Lifecycle is web/src/hooks/useSubscription.ts; its awaits split a function into several.
-- Input: web/src/hooks/useInputHistory.ts, the refs of the hook as a record; Input/Laws has proofs.
-- Stores: the lists of sessions, works and agent roles, which change notifications keep in step with
--   the server. Stores/Collection has what the lists share, Stores/Items their items, Stores/Sessions
--   web/src/lib/sessionStore.ts and web/src/hooks/useSession.ts, Stores/Works the other stores and
--   their hooks. Stores/Refinement reads the lists as maps.
-- Themes: web/src/lib/registries/themeRegistry.ts (Themes/Registry) and web/src/lib/themeStore.ts
--   (Themes/Store), with the classes of the document and the storage in the same record.
-- Extensions: web/src/lib/extensions.ts, with the registries of web/src/lib/registries that it
--   changes; Extensions/Sections is settingsRegistry.ts.
-- Shell: web/src/components/AppShell.tsx, a function for each effect and handler that navigates.
-- Worktrees: web/src/hooks/useWorktree.ts.
-- Composer: web/src/components/Chat/InputBar.tsx, a function for each handler and effect;
--   Composer/Palette has the pattern of commands and the filter of CommandPalette.tsx.
-- QuestionForm: web/src/components/Chat/AskUserQuestionItem.tsx; QuestionForm/Labels has
--   `split(", ")` and `join(", ")`.
-- Steps: the StepsEditor of web/src/components/Project/AgentRoleDetailOverlay.tsx.
-- InlineEdit: web/src/hooks/useInlineEdit.ts.
-- WorkDetail: web/src/components/Project/WorkDetailOverlay.tsx, its actions, role and steps; the
--   numbers of a step, below zero as well, are those of Prelude/Integers.
-- Project: the groups of web/src/components/Project/WorkListOverlay.tsx.
-- Rpc: web/src/lib/rpc and web-cluster/src/lib/rpc/node.ts, a request for each action.
-- Cluster: web-cluster/src/lib/wsStore.ts, one function for each handler and action.
-- Nodes: web-cluster/src/components/NodeList.tsx; Nodes/Poll has the effect that polls, with its
--   timers and fetches, and Nodes/Form is NodeForm.tsx.
--
-- The parts meet in the notifications: Ws/Notification hands a chat event to the callback of a
-- subscription, which is `handle_notification` of Chat/Session, and a change of a list to
-- `session_changed` and the like of Stores. Shell navigates by what Stores and Worktrees say, and
-- Navigation tells what the route then shows. Extensions register themes with Themes. The priorities
-- of Extensions/Sections are natural numbers. Composer saves what is sent with Input, brings it back
-- with it, and drops the cache of commands of Rpc.
--
-- Loops are structural recursion, so there is no fuel. The bound on retries is the source's
-- MAX_RECONNECT_ATTEMPTS.
--
-- Parameters: what `generateUUID` and `new Date` return (`Fresh`), `JSON.stringify`, the build's
-- APP_VERSION, and the router, which is a record of the two hooks that the code calls. Callbacks
-- are values of any type: the model says which one is called with what. Effects on the browser and
-- requests to the server are entries of a log or results of an operation. What an extension does when
-- it is activated is a list of calls of its context. What `localeCompare`, `trim` and
-- `toLowerCase` return are parameters.
--
-- Not modelled: rendering (the other components of web/src and of web-cluster/src), the
-- library that carries requests and its answers, the other wrappers of a query library, getters and
-- setters over browser storage, the Go server.
pub mod Prelude
pub mod Chat
pub mod Navigation
pub mod Input
pub mod Stores
pub mod Themes
pub mod Cluster
pub mod Rpc
pub mod Steps
pub mod QuestionForm
pub mod Composer
pub mod InlineEdit
pub mod WorkDetail
pub mod Nodes
pub mod Extensions
pub mod Shell
pub mod Project
pub mod Worktrees
pub mod Ws
