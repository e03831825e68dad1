-- ===== src/Lib.antt =====
-- kuberpult's web frontend, services/frontend-service/src: what it keeps of the server's overview,
-- what a user plans in it, and what it sends. `ui` stands for services/frontend-service/src/ui.
--
-- The parts and their files:
--   * Api: the messages of pkg/api/api.proto, as the generated TypeScript types give them.
--   * Store.Cart: the planned actions of ui/utils/store.tsx, with the side bar's and the snackbar's
--     stores (addAction, appendAction, updateActions, deleteAction, deleteAllActions). Its children
--     Slots, Invariant, Planning, Deletion and Plan are about these functions; a slot stands for what
--     `addAction` compares to find a duplicate, and a plan is the abstract view of the cart, which
--     forgets the order of its list.
--   * Store.Locks: the rows of the locks and the selections among them (useAllLocks,
--     useLocksSimilarTo, useLocksConflictingWithActions, useEnvironmentLock), and sortLocks.
--   * Store.Overview: applications, environments, releases and deployed versions (useRelease,
--     useDeployedReleases, useCurrentlyDeployedAtGroup, useFilteredApplicationLocks).
--   * Store.Rollout: the rollout status and its updates. Store.Dialog: the release dialog, which the
--     parameters of the page's address open (useOpenReleaseDialog, useReleaseDialogParams).
--   * SideBar: ui/components/SideBar/SideBar.tsx. Details is getActionDetails, DeleteAll the button
--     "Delete them all!", Apply the component's state machine: typing a message, confirming, sending
--     the batch and its two answers.
--   * ServiceLane: ui/components/ServiceLane. Display is getReleasesToDisplay and
--     getNumberOfReleasesBetween, Menu the menu and the dialog that selects environments.
--   * ReleaseCard, ReleaseDialog, EnvironmentCard, LocksPage, Chips, Dates, Links: the components of
--     these names below ui/components, ui/Pages and ui/utils, with their neighbours LockDisplay,
--     EnvironmentLockDisplay, LocksTable, ReleaseVersion, Warnings, FormattedDate and Releases.
--   * Search: the team dropdown and the text field of the top bar, which write the parameters of the
--     address that the home page reads. Navigation: the routes, the navigation bar and the snackbar.
--   * Authentication: ui/utils/AzureAuthProvider.tsx, with the store of the sign-in.
--   * App: ui/App/index.tsx. Its children are Startup, the effects that call for the configuration
--     and subscribe to the streams, Backoff, the retries of a stream and how long they take, Loading,
--     View, the whole page with its routes, and Session, the page as one state machine. A session has
--     the stores, of which all components share the cart and the overview, and the states of the
--     components. Its steps are the clicks that the page offers as it is rendered at that moment, with
--     the handlers of Session.Clicks, and what happens from outside (Session.World): the configuration,
--     the sign-in, the streams, the answers of the batch service, and the router. Session.Soundness
--     is about its runs, Session.Planned about the cart, Session.Closed about the sign-in.
--   * View, and the modules named View in each part: what the components render. The modules named
--     Shown, with Chips.Silent and ServiceLane.Display.Members, are about what a user sees of that
--     and can click.
--   * View.Accepts and the modules named Accepted: a property of all events that a part of the page can
--     raise, for any type of the events. The modules named Additions find the actions that a handler
--     adds to the cart, which do not depend on what is in it.
--   * Tests: runs on concrete data.
--
-- State is passed on explicitly: a handler takes the stores that it reads and returns them with its
-- changes. A handler that throws returns the state that it leaves and the error. An event of a
-- component comes after the last render, so that a callback reads the state as it is; the answer of
-- a request is an event of its own, which may come after any others.
--
-- A component renders elements, texts, links and buttons. A button has its label, whether it is
-- disabled, and the event that a click raises, and an input the event that typing raises; the type of
-- the events is an argument. `offered` collects the
-- events that a user can raise. A component that throws, because it reads a release that there is
-- not, renders a result that is an error, and so does every component around it. Class names, styles,
-- icons, keys and the ripples of the Material library are left out, and its components and those of
-- the router are elements.
--
-- A number of JavaScript that is a version, a count or a time is a natural number; an index that may
-- be -1 is kept as its successor, and the differences between indices are integers. A map is the
-- list of its entries in the order of `Object.values`. A timestamp is its milliseconds since 1970.
-- `Array.prototype.sort` is a stable insertion sort. All recursion is on lists, so no fuel is needed;
-- a subscription is a run over the signals that its stream gives.
--
-- Parameters stand for what the language and its libraries do to texts and for the outside world:
-- JSON.stringify, localeCompare, includes, trim, split, the parts of a time, the texts of numbers, the
-- encoding of addresses, how the router writes the parameters of an address, how the list of teams
-- selects an entry, the random lock id, the time, and the answers of the server and of the
-- sign-in's library. Not modelled are the effects that only touch the elements of the page (focus,
-- ripples), messages to the console, the timer that renders a date again, ui/utils/GrpcApi.tsx,
-- index.tsx and Routes.tsx, which construct the clients and mount the page, and the Go services,
-- charts and scripts of the repository. The frontend has no way to sign out and never resets the token;
-- that the sign-in's library loses its user for another reason, as when a browser's storage is cleared,
-- is not modelled, and neither is a stream that the server completes without an error.
--
-- In a session the memoised rows of the page of the locks are sorted when the page opens, when the
-- overview or the application's parameter changes, and whenever else that page may be rendered anew,
-- which is an event. A lane that is not shown any more may lose its state, which is an event too.
pub mod Prelude
pub mod Api
pub mod Store
pub mod SideBar
pub mod ServiceLane
pub mod ReleaseCard
pub mod LocksPage
pub mod ReleaseDialog
pub mod EnvironmentCard
pub mod Dates
pub mod App
pub mod Chips
pub mod Links
pub mod View
pub mod Search
pub mod Navigation
pub mod Authentication
pub mod Tests
