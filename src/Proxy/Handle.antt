-- ===== src/Proxy/Handle.antt =====
-- handle of internal/proxy/proxy.go: the first byte chooses the protocol. `request_of` stands for
-- `http.ReadRequest` on the bytes of a client.
use conduitvpn.Base.{ℕ, Bool, Option, List, [], ◌∷◌, ◌==◌, if◌then◌else◌, Str}
use conduitvpn.Proxy.{Server, Session}
use conduitvpn.Proxy.Socks5.{handle_socks5}
use conduitvpn.Proxy.Http.{Request, Handled, handle_http}

pub data Protocol : Type 0 where
  no_bytes : Protocol
  spoke_socks5 : Session → Protocol
  spoke_http : Handled → Protocol

module _ (dial : Str → Bool) (reachable writable : Bool)
    (request_of : List ℕ → Option Request) where
  unfoldable pub handle : Server → List ℕ → Protocol
  unfolding handle_socks5 handle_http
  handle s [] = no_bytes
  handle s (c ∷ input) =
      if c == 5
      then spoke_socks5 (handle_socks5 dial reachable s (c ∷ input))
      else spoke_http (handle_http dial writable s (request_of (c ∷ input)))
