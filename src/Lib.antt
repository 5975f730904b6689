-- ===== src/Lib.antt =====
-- Verification of pact-go, a Go library for consumer driven contract tests.
--
-- The parts of the program, and the files that model them:
--
--   Common, Common/*     texts as lists of bytes, results, outcomes that return or panic, steps up to
--                        the first error, lists and integers, for all the parts.
--   Http                 requests, handlers and middleware: types/handler.go and the types that
--                        proxy/http.go takes from net/http.
--   Command              command/ and main.go: the commands and the defaults of their flags, what install
--                        and version print, and how they exit.
--   Types/*              types/: the requests of the library and their Validate methods, which build
--                        the command lines of the Pact CLI. Selector is consumer_version_selector.go,
--                        VerifyRequest is verify_request.go, PublishRequest is publish_request.go and
--                        MessageRequest is pact_message_request.go with pact_reification_request.go.
--                        The files CommandLine hold the command lines that are expected.
--   Proxy, Proxy/*       proxy/http.go: the chain of middleware and the rewriting of a request, in front
--                        of the provider that is verified. Transport is its customTransport.
--   Dsl/Hooks/*          dsl/pact.go: BeforeEachMiddleware, AfterEachMiddleware, stateHandlerMiddleware
--                        and the list that VerifyProviderRaw gives to the proxy.
--   Dsl/Verifying/*      dsl/pact.go: VerifyProviderRaw, which puts the hooks into the proxy. Expected is
--                        what is to be asked of the client and of the proxy.
--   Dsl/Reports/*        dsl/pact.go: VerifyProvider and the two other functions that report to testing.
--   Dsl/Pact/*           dsl/pact.go: Setup, AddInteraction, AddMessage, Verify, WritePact, Teardown.
--                        Sessions is any sequence of these calls, against an abstract session.
--   Dsl/Lifecycle/*      dsl/pact.go over dsl/client.go, client/ and install/installer.go: Setup and
--                        Teardown with the client and the installer of the library, the port on which
--                        the mock server is launched (Ports), and the calls of a test between the two
--                        (Sessions).
--   Dsl/MockService/*    dsl/mock_service.go: the calls that Verify and WritePact make.
--   Dsl/Messages/*       dsl/pact.go and dsl/message.go: the handler of message verification, which
--                        answers a request for a message by the handlers of its states and description,
--                        the test of a message consumer (Consumer), and VerifyMessageProviderRaw
--                        (Provider) with its request of dsl/verify_mesage_request.go (Request). Builder
--                        is the builder of a message. Consumer/Composed and Provider/Composed take the
--                        client of Dsl/Client. Provider/Expected is what is to be asked of it.
--   Dsl/Client/*         dsl/client.go: the client of the CLI tools. Address is getPort and getAddress,
--                        Servers is StartServer to RemoveAllServers and PublishPacts, Verifier is
--                        VerifyProvider, MessageTool is UpdateMessagePact and ReifyMessage, Pipes
--                        is what those share, and Output is sanitiseRubyResponse, which nothing calls.
--   Dsl/Doubles          dsl/mock_client.go and dsl/service_mock.go: the doubles for tests, as
--                        implementations of the interfaces Client of dsl/client.go and Service of
--                        client/service.go, beside those of the library.
--   Dsl/Publish/*        dsl/publish.go: the publisher of pacts, with any client (Sent) and with the
--                        client of Dsl/Client (Composed).
--   Client/*             client/: ServiceManager is service_manager.go, as a step relation (Steps) over
--                        its process map (Registry); Services are the four services and the calls in the
--                        order of one caller, and Interface is what dsl/client.go calls of a service.
--   Install/*            install/installer.go: the check of the versions of the tools.
--   Dsl/Matcher/*        dsl/matcher.go: the matchers, the functions that make them (Builders), the struct
--                        tags (Tags), Match (Match), the JSON forms (Json) and the common formats
--                        (Formats).
--   Dsl/Interaction      dsl/interaction.go, dsl/request.go and dsl/response.go: the builder of an
--                        interaction.
--   Utils, Utils/*       utils/port.go: the port that Setup gives to the mock server; Listen is
--                        checkPort and GetFreePort, Wrapping the loop over a range with an index of 64
--                        bits, and Decimal the decimal text of numbers, as strconv.Atoi and %d have it.
--   Examples/*           examples/: the users and their repository (Users), the services of mux (Provider) and
--                        gin (Gin), the front end of goconsumer (Consumer), and its login at the former
--                        (Login). Mains is what the programs register, and Messages the structs
--                        of the message examples with their tags.
--   Tests/*              concrete runs.
--
-- A consumer test calls Setup (Dsl/Pact), which picks a port (Utils) and has the client start a mock
-- server; Verify and WritePact speak to it over HTTP (Dsl/MockService). A provider verification puts the
-- hooks (Dsl/Hooks) into the middleware of a proxy (Proxy), waits for it and has the client verify it
-- (Dsl/Verifying); its request is checked in Types. The client (Dsl/Client) starts, stops and runs the
-- tools with the services of client/, each of which has a manager with two monitors beside it.
--
-- State is passed on explicitly: an operation takes a world W, a type that is left open, and gives the
-- world behind it. `Outcome` has `panics` for a panic and for a process that log.Fatal ends. A nil
-- pointer is `none`. A method that changes its receiver gives the receiver behind it. Logging is left
-- out.
--
-- Code outside the repository is a parameter: json.Marshal, the formatting of a time, net/http
-- (`Http` of Dsl/MockService and `transport` of Proxy), the file system and the environment
-- (`System` of Dsl/Pact), fmt.Sscanf (`Sscanf` of Dsl/Matcher/Tags) and net (`Net` of Utils/Listen;
-- what it answers does not change during a search for a port, which leaves the world as it was),
-- os/exec (`Host` of Dsl/Client), the scanners of the output of a process (`Scanner` of
-- Dsl/Client/Verifier), net/url, and the versions of hashicorp/go-version (`Commander` of Install).
-- The polls of a port are a finite sequence that ends with a connection or the end of the time.
-- Where the code calls an interface, as the client of a Pact or of a publisher is, its methods are
-- parameters (`System` of Dsl/Pact, `MessageClient` of Dsl/Messages/Consumer, `Verification` of
-- Dsl/Verifying).
--
-- Bounds: numbers that the code reads from a text are checked against the largest int of 64 bits.
-- The index of the loop over a range of ports does not wrap in FindPortInRange, as that of the code
-- does on a range that ends with that int and has no usable port; Utils/Wrapping is the loop with
-- the index of the code, on fuel, and says when it ends. The fuel of `itoa` is the number itself and
-- one more, and a number has no more decimal digits than that. Loops over slices are structural. A
-- Go type is a finite tree, since Match does not return on a type that holds itself. A map of
-- matchers is the list of its entries.
--
-- Not modelled: a Setup whose search for a port does not end, which is so for a range up to the
-- largest int with no usable port (Setup makes the search also if it starts no server); space that
-- is not ASCII, in strings.TrimSpace; a negative SpecificationVersion or ClientTimeout; the parsing
-- of the command line, which cobra does; what only logs; the structs that the repository declares
-- and uses nowhere (CommandResponse, PactFile and PactName); and its tests.
pub mod Common
pub mod Http
pub mod Types
pub mod Proxy
pub mod Utils
pub mod Client
pub mod Install
pub mod Command
pub mod Dsl
pub mod Examples
mod Tests
