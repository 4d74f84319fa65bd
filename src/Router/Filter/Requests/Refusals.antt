-- ===== src/Router/Filter/Requests/Refusals.antt =====
-- When onMessageDecoded of the router filter refuses a request, and what it does then.
use Prim.Native.String.{String}
use meta_protocol_proxy.Metadata.{Metadata}
use meta_protocol_proxy.Route.{Route}
use meta_protocol_proxy.Router.Filter.{Router}
use meta_protocol_proxy.Router.Filter.Requests.{Services}
