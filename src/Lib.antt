-- ===== src/Lib.antt =====
-- Verification of go-oidc-middleware: a middleware that admits requests with a token of an OpenID
-- Connect provider.
--
-- A request passes through three parts. An adapter (oidchttp, oidcgin, oidcfiber, oidcechojwt,
-- oidctoken) extracts a token string from the headers, by the options of the token string, and
-- hands it to the handler (internal/oidc/oidc.go). The handler reads the headers of the token, asks
-- the key handler (internal/oidc/keyhandler.go) for the key they name, verifies the signature,
-- checks the claims, and returns them; the adapter puts them in the context of the request and goes
-- on, or it answers with a status. The key handler holds the provider's key set and fetches it again
-- when a key is missing. The package optest is a provider for tests.
--
--   Prelude, Text, Errors  shared: numbers, Go strings, errors as values, actions on a state
--   Platform               what the program uses and does not implement, as a record of parameters
--   Options                options/options.go, options/tokenstring.go
--   TokenString            internal/oidc/tokenstring.go: GetTokenString and its helpers
--   KeyHandler             internal/oidc/keyhandler.go: newKeyHandler, updateKeySet, getKey, findKey,
--                          for one request; Updates interleaves concurrent requests for an update,
--                          and Updates/Ends is about runs of them
--   Oidc                   internal/oidc/oidc.go: Checks (the tests of a token), Signature, Handler
--                          (NewHandler, loadJwks), Parse (ParseToken)
--   Middleware             oidchttp/http.go, oidcgin/gin.go, oidcfiber/fiber.go,
--                          oidcechojwt/echo_jwt.go, oidctoken/token.go
--   Op                     optest: the codes (authorization_cache.go), the opaque tokens
--                          (opaque_access_token.go), the signing keys (jwks.go), the options
--                          (options.go), the tokens (token.go: Tokens), and optest.go: Provider
--                          (New, Start, RotateKeys, GetTokenByUser), UserInfo, Random, Handlers (the
--                          endpoints), Bearer; Testing is testing.go; Services is what they use and do not implement
--   Provided               optest and internal/oidc together: Link says how the middleware reads the
--                          keys and tokens of the provider
--   Examples               examples/shared/runtime.go (Runtime), examples/api/main.go (Api),
--                          examples/shared/server_http.go, server_gin.go, server_fiber.go and
--                          server_echo_jwt.go (Servers), examples/op/main.go (Provider), and
--                          examples/pkce-cli/main.go (Pkce)
--   Tests                  runs at concrete inputs
--
-- A method is a function from its receiver and the world to a result and both again; a setter is a
-- function on a record; an adapter gives the list of what it does with its framework, in order. A
-- nil dereference is an error of its own kind. The packages of jwx, HTTP, JSON, the clock and the
-- rate limiter are fields of Platform, whose World is all that lies outside. The loops run over
-- lists, or for as many rounds as the key set has keys or a random text has letters, so that no fuel
-- is needed. Times and durations are unbounded integers of nanoseconds; a Go string is a list of
-- bytes. The contexts of the web frameworks and the JWT middleware of echo are fields of Frameworks.
--
-- The limiter of Platform answers for every rate: a rate of 0, which the rate limiter does not take,
-- and the conversion of the rate from uint to int are left out, so that the results on nil
-- dereferences are about rates from 1 on that an int holds, and about no other panic. A validation
-- callback takes the claims by value and gives an error or none: one that changes the claims it is
-- pointed at is not represented.
--
-- Not modelled: cancellation, requests that interleave elsewhere than in an update of the key set
-- (in KeyHandler and Oidc one request runs at a time, and what another one sends over the channel
-- comes from Platform), the texts of JSON and HTML that the test provider writes, the servers
-- that the examples start and stop and the browser that they open, and the code that is tests itself.
pub mod Prelude
pub mod Text
pub mod Errors
pub mod Platform
pub mod Options
pub mod TokenString
pub mod KeyHandler
pub mod Oidc
pub mod Middleware
pub mod Op
pub mod Provided
pub mod Examples
mod Tests
