-- ===== src/Lib.antt =====
-- The fabric8 OSO proxy: traefik with a middleware that authenticates the requests of
-- OpenShift.io and sends each to the cluster of its user, and a provider that configures the
-- proxy with the clusters of the auth service.
--
-- A request passes middlewares/osio/osio.go (`OSIOAuth.ServeHTTP`): the token of its
-- Authorization header gets a type (jwt_token.go), and a lookup by the token, or for a service by
-- user and namespace, brings the user's namespace (tenant.go) and a token for the cluster
-- (token.go, secret.go) through a cache of promises (cache.go). The handler then strips the path,
-- and redirects the request or gives it a Target header. The provider of provider/osio
-- (client.go, osio.go) polls the auth service, and sends a configuration whose frontends match on
-- that header.
--
-- Base: strings as lists of bytes with the functions of package strings, association lists for
--   maps, decimal numerals, and `Run`, the end of a Go call: a value, an error or a panic, each
--   with the state that it leaves.
-- Net: url.URL and its escaping, url.Values, http.Header, http.Request, and the requests that the
--   proxy makes itself.
-- Osio.Types, Osio.Paths: the constants and the functions on paths and headers of
--   middlewares/osio/osio.go.
-- Osio.Cache: middlewares/osio/cache.go. Promises live on a heap, and the map holds their
--   addresses. Each method holds a mutex from its first to its last statement, so it is one step;
--   `Steps` is any interleaving of the goroutines.
-- Osio.Resolve: the closures that the cache keeps, by the variables that they capture, and the
--   lookups `resolveByToken`, `resolveByID` and `resolveByIDWithoutCache`.
-- Osio.Handler: `ServeHTTP`, over the interface `Locators`.
-- Osio.AuthParam: middlewares/osio/osio_request.go, which moves a token from the query to the
--   header before the handler reads it.
-- Osio.Remote: tenant.go, secret.go, token.go and jwt_token.go, and `NewOSIOAuth`, which makes
--   `Locators` of them.
-- Cluster.Client, Cluster.Rules, Cluster.Schedule: provider/osio/client.go, and `loadRules`, the
--   provider's state and the retried operation of provider/osio/osio.go; `Step` is one move of the
--   goroutine, or the cancellation of its context.
-- Types.Constraints, Types.Domains, Types.StatusCodes: the constraint expressions of
--   types/types.go, by which every provider selects services (Provider.Matching is
--   provider/provider.go's use of them), the domains of types/domains.go and `HTTPCodeRanges`.
-- Rules: rules/rules.go. `Rules` is the parser, Rules.Routes its methods over a router and
--   `getRoute` of server/server.go; Rules.Printed is how an operator writes a rule.
-- Middlewares.Rewrite, Middlewares.Retry, Middlewares.ErrorPages: stripPrefix.go, addPrefix.go,
--   replace_path.go and their variants with regular expressions under middlewares, in the order of
--   `wireFrontendBackend`; middlewares/retry.go; middlewares/errorpages/error_pages.go. A handler
--   below is a function of the request, or the list of calls that it makes on its writer.
-- HealthCheck: healthcheck/healthcheck.go, over an interface for the balancer.
-- Server.Pipeline, Server.Defaults, Server.Certificates: of server/server.go the goroutines that
--   take a configuration from its provider to the routers (`Internal` is a move of one of them,
--   `Step` also a provider's message; a panic of `loadConfig` ends `listenConfigurations`), the values
--   that a configuration lacks, and the choice of a certificate.
-- Server.Wiring: `loadConfig` of server/server.go, which makes the routers of the entry points from
--   all configurations. Wiring.Backends and Wiring.Chains build the middlewares in front of a
--   backend, Wiring.Frontends has the loops; a frontend that is skipped is an error of `Run`.
--   Wiring.Made says part by part what the chain of a frontend has to be, and Wiring.Own that it is.
-- Whitelist: whitelist/ip.go and middlewares/ip_whitelister.go.
--
-- Parameters: the HTTP client, `url.Parse` inside `http.NewRequest`, encoding/json, base64,
-- OpenPGP, jwt-go, go-jose, SHA-256, the router mux, the balancer of oxy, regexp, sort.Sort, the
-- addresses of package net and strings.ToLower. Where a theorem relies on one of them, the
-- assumption is a hypothesis of it.
--
-- Every loop is a structural recursion, but for three: the fuel of a decimal numeral is the number's
-- successor, that of `strings.TrimSpace` the length of the text, and that of the retries the number
-- of attempts and one. The modules say why each is enough. Keys of headers are taken to be in
-- canonical form.
--
-- Not modelled: log output, metrics but for the gauge of the health check, timers and the length of
-- the backoff, data races between the unlocked variables of closures, and the rest of traefik: of
-- its server the entry points and what `loadConfig` does behind its loops, its other middlewares and
-- providers, and its certificates of an external authority.
pub mod Base
pub mod Net
pub mod Osio
pub mod Cluster
pub mod HealthCheck
pub mod Middlewares
pub mod Provider
pub mod Rules
pub mod Server
pub mod Types
pub mod Whitelist
pub mod Tests
