-- ===== src/Lib.antt =====
-- Verification of vps-monitor: the logic of the web client under frontend/src.
--
-- The client shows the containers of several docker hosts, follows their logs and statistics, edits
-- their environment variables, scans their images and keeps the user logged in. A view is modelled as
-- a state record and a handler: a function from an input (a gesture, an event, a server's reply) and a
-- state to the next state. Where a handler awaits a reply, the reply is an input of its own, except where a
-- file says that its requests are answered first. What the client does outside itself
-- (calls, toasts, navigation) is recorded in the state as a list of effects. The runtime and the
-- server are parameters: lower case and the order of texts (`Locale`), the text decoder (`Decoder`),
-- the JSON parser, the text of numbers and times, what queries have loaded, the replies.
--
-- Files, with the code they are about:
--   Common, Common/*           strings as lists of code units, arrays as lists, the stable
--                              Array.prototype.sort, Set and Map, and the lemmas shared
--   Containers                 features/containers/types.ts and components/container-utils.ts
--   Containers/Grouping        groupByCompose
--   Containers/Uptime          formatUptime
--   Dashboard/UrlState         hooks/use-containers-dashboard-url-state.ts: the parameters in the URL,
--                              `handle` is one call of the hook's setters
--   Dashboard/Listing          components/containers-dashboard.tsx: matchesFilters, getSortValue,
--                              filteredContainers and stateCounts
--   Dashboard/Paging           the same file: totalPages, the clamping effect, startIndex, endIndex and
--                              pageItems; page numbers are integers, since the URL may hold any
--   Dashboard/Buttons          components/containers-pagination.tsx: the row of page buttons
--   Dashboard/Actions          the same file: executeAction, the confirmation dialog, selection and
--                              batch actions
--   Dashboard/Actions/Overlap  the same, with gestures while requests are out
--   Logs, Logs/Filter          types/logs.ts
--   Logs/Stream                iterateNDJSONStream of api/get-container-logs-parsed.ts and
--                              iterateLinesFromStream of api/get-container-logs.ts
--   Logs/Line                  parseContainerLogLine of api/get-container-logs.ts
--   Logs/Search                components/containers-logs-sheet.tsx: level filter, search matches,
--                              navigation and highlighting
--   Logs/Control              the same file: streams, refreshing and the effects that start and stop them
--   Logs/Download              the same file: downloads
--   Logs/Page                  routes/containers/$containerId/logs.tsx: the page's container and effects
--   Environment                components/environment-variables.tsx: parseEnvFile and the editing
--                              session
--   Stats                      hooks/use-container-stats.ts
--   Auth                       contexts/auth-context.tsx and lib/api-client.ts
--   Alerts                     features/alerts: components/alerts-list.tsx, components/alert-badge.tsx,
--                              types.ts and api/get-alerts.ts
--   Auth/Guard                 lib/auth-guard.ts
--   Theme                      contexts/theme-context.tsx
--   Scanner                    features/scanner: types.ts, components/scan-results-table.tsx,
--                              components/scan-results-export.tsx and hooks/use-scan-query.ts;
--                              Scanner/Markdown is the Markdown export
--   Scanner/Dialog             features/scanner: components/scan-dialog.tsx; Phases is its abstract machine
--   Scanner/Bulk               features/scanner: components/bulk-scan-dialog.tsx, its sums and badges
--   Scanner/Sbom               features/scanner: components/sbom-dialog.tsx
--   Scanner/History            features/scanner: components/scan-history-page.tsx, sbom-history-page.tsx
--                              and api/get-scan-history.ts
--   Images                     features/images: components/images-table.tsx and types.ts
--   Images/Pull                features/images: components/image-pull-dialog.tsx and api/pull-image.ts
--   Databases                  features/databases: components/databases-page.tsx and types.ts
--   Processes                  features/processes: components/processes-page.tsx and api/get-processes.ts
--   Settings                   features/settings: components/docker-hosts-section.tsx and types.ts
--   Settings/Auth              features/settings: components/auth-section.tsx and api/update-auth.ts
-- The modules named Tests hold runs at concrete inputs; Containers/Samples holds their data.
--
-- How the parts meet: the dashboard takes its filters, order and page from UrlState, lists with
-- Listing, cuts a page with Paging and groups it with Grouping; Actions works on the containers that
-- the page shows. The log viewer receives the entries of Stream, started and stopped by Control: each
-- stream that was started runs beside the others, and what it meets next is an event that may come at
-- any time. Page uses the operations of Control, as the code has a copy of them. Images/Pull reads its
-- replies with Stream. The sockets and requests carry the token that Auth keeps.
--
-- Numbers: counts and positions are natural numbers; page numbers, dates and sizes that the URL or the
-- server may make negative are integers. No machine-width overflow occurs: the client's numbers stay
-- below 2 ^ 53. Fuel: highlighting a message takes one call more than the message is long, since each
-- call that finds the text leaves a shorter rest; the reader of an exported row takes the number of
-- cells. All other loops are structural.
--
-- Not modelled: networks, the page of system statistics, terminals, and the settings of the scanner, the
-- bots and the Coolify hosts; rendering (JSX, CSS classes, toasts' looks), generated routes, the UI primitives of
-- components/ui, formatting of dates in the user's locale, and the backend under backend/, which is
-- written in Go and reached through replies only. An object with integer keys lists them first in
-- JavaScript; a dictionary here keeps the order in which keys were set, on which no result depends.
pub mod Common
pub mod Containers
pub mod Dashboard
pub mod Logs
pub mod Images
pub mod Databases
pub mod Processes
pub mod Settings
pub mod Environment
pub mod Alerts
pub mod Auth
pub mod Stats
pub mod Theme
pub mod Scanner
