-- ===== src/Quic/Acceptor/Token.antt =====
-- The address tokens of crates/net/quic/src/state/listener.rs.
use hala_rs.Base.{
  ◌≡◌, ◌↔◌, refl, ap, ◌∙◌, arith, Bool, true, false, not, ◌++◌, Outcome, ok, err, ltb, length, take,
  drop, take-append-drop, take-length-append, drop-length-append, length-append, if◌then◌else◌,
}
use hala_rs.Base.Maps.{same_text, same_text_self, same_text-eq}
use hala_rs.Io.Error.{interrupted}
use hala_rs.Io.ReadBuf.{Bytes}
use hala_rs.Quic.Acceptor.{SocketAddr, Header, octets, quiche_prefix, validate_token, mint_token}

minted-validates :
    (src : SocketAddr) (odcid : Bytes)
    → validate_token (quiche_prefix ++ (octets src.ip ++ odcid)) src ≡ ok odcid
unfolding validate_token
minted-validates src odcid =
    let addr = octets src.ip in
    let long : ltb (length (quiche_prefix ++ (addr ++ odcid))) 6 ≡ false = ground arith in
    let rest_long : ltb (length (addr ++ odcid)) (length addr) ≡ false =
      ground (arith, length-append addr odcid) in
    rw
      (
        long,
        rest_long,
        take-length-append addr odcid,
        same_text_self addr,
        drop-length-append addr odcid,
      )
      refl

if-ok :
    {E A : Type 0} (b : Bool) (e : E) (r : Outcome E A) (a : A)
    → (if b then err e else r) ≡ ok a
    → (b ≡ false) × (r ≡ ok a)
if-ok true e r a u = cc
if-ok false e r a u = (refl, u)

not-false : (b : Bool) → not b ≡ false → b ≡ true
not-false true u = refl
not-false false u = cc

validates-minted :
    (token : Bytes) (src : SocketAddr) (odcid : Bytes)
    → validate_token token src ≡ ok odcid
    → token ≡ quiche_prefix ++ (octets src.ip ++ odcid)
unfolding validate_token
validates-minted token src odcid u =
    let addr = octets src.ip in
    let rest = drop 6 token in
    let other = not (same_text (take (length addr) rest) addr) in
    let (v1, u1) = if-ok (ltb (length token) 6) interrupted _ odcid u in
    let (v2, u2) = if-ok (not (same_text (take 6 token) quiche_prefix)) interrupted _ odcid u1 in
    let (v3, u3) = if-ok (ltb (length rest) (length addr)) interrupted _ odcid u2 in
    let (v4, u4) = if-ok other interrupted (ok (drop (length addr) rest)) odcid u3 in
    let front =
      same_text-eq (take 6 token) quiche_prefix
        (not-false (same_text (take 6 token) quiche_prefix) v2) in
    let middle =
      same_text-eq (take (length addr) rest) addr
        (not-false (same_text (take (length addr) rest) addr) v4) in
    cc (take-append-drop 6 token, take-append-drop (length addr) rest, front, middle, u4)

-- A token is taken from an address exactly if it is `quiche`, the octets of the address and the id
-- that `validate_token` returns, one behind the other; so that of `mint_token` returns the id of the
-- header.
pub validate_token_iff :
    (token : Bytes) (src : SocketAddr) (hdr : Header)
    → (validate_token token src ≡ ok hdr.dcid) ↔ (token ≡ mint_token hdr src)
unfolding mint_token
validate_token_iff token src hdr = (
  λ u. validates-minted token src hdr.dcid u,
  λ p. ap (λ t. validate_token t src) p ∙ minted-validates src hdr.dcid,
)
