-- ===== src/Kernel/Route/Sniff/Hello.antt =====
-- kernel/src/route/sniff.rs: the name of a TLS hello.
use xray_rs.Base.{
  ℕ, zero, suc, ◌+◌, ◌*◌, ◌/◌, ◌%◌, ◌≤◌, ◌<◌, ◌≡◌, refl, ◌∙◌, true, false, some, List, [], ◌∷◌,
  ◌++◌, append_assoc, leb, ◌==◌, length, length-append, get_elem?, any, All, arith,
}
use xray_rs.Base.Optional.{
  get_from, get_to, read_u16, get_from-append, get_to-append, get_from_at, get_to_at, get_elem?_at,
}
use xray_rs.Base.Text.{is_utf8}
use xray_rs.Kernel.Net.{put_u16}
use xray_rs.Kernel.Route.Sniff.{
  tls, last_of, host_name, name_loop, read_server_name, extension_loop, read_suites,
  read_client_hello, read_record, sniff_tls, sniff,
}

-- A name that a hello may ask for: no byte is a space or below, the last one is no dot, and the bytes
-- are UTF-8.
pub record IsHostName (name : List ℕ) : Type 0 where
  pub printable : any (λ c. leb c 32) name ≡ false
  pub no_dot : (last_of 0 name == b'.') ≡ false
  pub utf8 : is_utf8 name ≡ true

host_name-IsHostName : (name : List ℕ) → IsHostName name → host_name name ≡ some name
unfolding host_name
host_name-IsHostName name v = rw (v.printable, v.no_dot, v.utf8) refl

-- What a hello is made of: an entry of the list of names, the list, an extension and the message.
abbrev pub name_entry : (kind : ℕ) → List ℕ → List ℕ
name_entry kind name = kind ∷ (put_u16 (length name) ++ name)

abbrev pub server_name : List ℕ → List ℕ
server_name entries = put_u16 (length entries) ++ entries

abbrev pub extension : (kind : ℕ) → List ℕ → List ℕ
extension kind body = put_u16 kind ++ (put_u16 (length body) ++ body)

pub u16_value : (n : ℕ) → n < 65536 → n / 256 % 256 * 256 + n % 256 ≡ n
u16_value n h = omega arith

-- What is behind a number of two bytes.
get_from_u16 : (n : ℕ) (rest : List ℕ) → get_from 2 (put_u16 n ++ rest) ≡ some rest
get_from_u16 n rest = get_from-append (put_u16 n) rest

name_loop-name_entry :
    (fuel : ℕ) (name rest : List ℕ)
    → length name < 65536
    → IsHostName name
    → name_loop (suc fuel) (0 ∷ (put_u16 (length name) ++ (name ++ rest))) ≡ some name
unfolding name_loop read_u16
name_loop-name_entry fuel name rest h v =
    rw
      (
        u16_value (length name) h,
        get_from_u16 (length name) (name ++ rest),
        get_to-append name rest,
      )
      (host_name-IsHostName name v)

read_server_name-server_name :
    (name more : List ℕ)
    → length (name_entry 0 name ++ more) < 65536
    → IsHostName name
    → read_server_name (server_name (name_entry 0 name ++ more)) ≡ some name
unfolding read_server_name read_u16
read_server_name-server_name name more h v =
    let entries = name_entry 0 name ++ more in
    let same : (length entries == length entries / 256 % 256 * 256 + length entries % 256) ≡ true =
      ground (arith, u16_value (length entries) h) in
    rw (get_from_u16 (length entries) entries, same)
      (name_loop-name_entry (length (put_u16 (length name) ++ (name ++ more))) name more
        (omega (arith, h, length-append name more)) v)

-- An extension of another kind is passed over.
extension_loop-other :
    (fuel kind : ℕ) (body rest : List ℕ)
    → kind < 65536
    → (kind == 0) ≡ false
    → length body < 65536
    → extension_loop (suc fuel) (put_u16 kind ++ (put_u16 (length body) ++ (body ++ rest)))
      ≡ extension_loop fuel rest
unfolding extension_loop read_u16
extension_loop-other fuel kind body rest k other h =
    let head : get_from 2 (put_u16 kind ++ (put_u16 (length body) ++ (body ++ rest)))
        ≡ some (put_u16 (length body) ++ (body ++ rest)) =
      get_from_u16 kind (put_u16 (length body) ++ (body ++ rest)) in
    let heads : get_from 4 (put_u16 kind ++ (put_u16 (length body) ++ (body ++ rest)))
        ≡ some (body ++ rest) =
      get_from-append (put_u16 kind ++ put_u16 (length body)) (body ++ rest) in
    rw
      (
        u16_value kind k,
        head,
        u16_value (length body) h,
        heads,
        get_to-append body rest,
        get_from-append body rest,
        other,
      )
      refl

-- That of the names gives the name.
extension_loop-name :
    (fuel : ℕ) (body name rest : List ℕ)
    → length body < 65536
    → read_server_name body ≡ some name
    → extension_loop (suc fuel) (put_u16 0 ++ (put_u16 (length body) ++ (body ++ rest))) ≡ some name
unfolding extension_loop read_u16
extension_loop-name fuel body name rest h v =
    let head : get_from 2 (put_u16 0 ++ (put_u16 (length body) ++ (body ++ rest)))
        ≡ some (put_u16 (length body) ++ (body ++ rest)) =
      get_from_u16 0 (put_u16 (length body) ++ (body ++ rest)) in
    let heads : get_from 4 (put_u16 0 ++ (put_u16 (length body) ++ (body ++ rest)))
        ≡ some (body ++ rest) =
      get_from-append (put_u16 0 ++ put_u16 (length body)) (body ++ rest) in
    rw (head, u16_value (length body) h, heads, get_to-append body rest, v) refl

abbrev pub extensions : List (ℕ × List ℕ) → List ℕ
extensions [] = []
extensions ((kind, body) ∷ others) = extension kind body ++ extensions others

-- An extension that is not that of the names.
abbrev pub IsOther : ℕ × List ℕ → Type 0
IsOther (kind, body) = (kind < 65536) × ((kind == 0) ≡ false) × (length body < 65536)

extension_loop_lem :
    (fuel : ℕ) (others : List (ℕ × List ℕ)) (body name rest : List ℕ)
    → All IsOther others
    → length others < fuel
    → length body < 65536
    → read_server_name body ≡ some name
    → extension_loop fuel (extensions others ++ (extension 0 body ++ rest)) ≡ some name
extension_loop_lem zero others body name rest a f h v = absurd (omega (arith, f))
extension_loop_lem (suc fuel) [] body name rest a f h v =
    rw (append_assoc (put_u16 (length body)) body rest)
      (extension_loop-name fuel body name rest h v)
extension_loop_lem (suc fuel) ((kind, other) ∷ others) body name rest ((k, q, l), a) f h v =
    let tail = extensions others ++ (extension 0 body ++ rest) in
    let parts : extensions ((kind, other) ∷ others) ++ (extension 0 body ++ rest)
        ≡ put_u16 kind ++ (put_u16 (length other) ++ (other ++ tail)) =
      append_assoc (extension kind other) (extensions others) (extension 0 body ++ rest) in
    rw (parts) (
      extension_loop-other fuel kind other tail k q l
      ∙ extension_loop_lem fuel others body name rest a (omega (arith, f)) h v)

extensions_few : (others : List (ℕ × List ℕ)) → length others ≤ length (extensions others)
extensions_few [] = omega arith
extensions_few ((kind, body) ∷ others) =
    omega (arith, extensions_few others, length-append (extension kind body) (extensions others))

-- What follows the session id, and the whole message behind its 38 bytes of fixed size.
abbrev pub behind_session : (suites methods exts : List ℕ) → List ℕ
behind_session suites methods exts =
    put_u16 (length suites)
    ++ (suites ++ (length methods ∷ (methods ++ (put_u16 (length exts) ++ exts))))

read_suites_lem :
    (suites methods exts : List ℕ)
    → length suites < 65536
    → (length suites % 2 == 1) ≡ false
    → length exts < 65536
    → read_suites (behind_session suites methods exts) ≡ extension_loop (length exts) exts
unfolding read_suites read_u16
read_suites_lem suites methods exts s even e =
    let tail = put_u16 (length exts) ++ exts in
    let cut : get_from (2 + length suites) (behind_session suites methods exts)
        ≡ some (length methods ∷ (methods ++ tail)) =
      get_from_at (2 + length suites) (put_u16 (length suites) ++ suites)
        (length methods ∷ (methods ++ tail)) _ (omega arith)
        (append_assoc (put_u16 (length suites)) suites (length methods ∷ (methods ++ tail))) in
    let cut2 : get_from (1 + length methods) (length methods ∷ (methods ++ tail)) ≡ some tail =
      get_from_at (1 + length methods) (length methods ∷ methods) tail _ (omega arith) refl in
    let same : (length exts / 256 % 256 * 256 + length exts % 256 == length exts) ≡ true =
      ground (arith, u16_value (length exts) e) in
    rw (u16_value (length suites) s, even, cut, cut2, get_from_u16 (length exts) exts, same) refl

abbrev pub client_hello : (head session_id suites methods exts : List ℕ) → List ℕ
client_hello head session_id suites methods exts =
    head ++ (length session_id ∷ (session_id ++ behind_session suites methods exts))

read_client_hello_lem :
    (head session_id suites methods exts : List ℕ)
    → length head ≡ 38
    → length session_id ≤ 32
    → read_client_hello (client_hello head session_id suites methods exts)
      ≡ read_suites (behind_session suites methods exts)
unfolding read_client_hello
read_client_hello_lem head session_id suites methods exts n s =
    let tail = behind_session suites methods exts in
    let hello = client_hello head session_id suites methods exts in
    let long : leb 42 (length hello) ≡ true = ground (
      arith,
      n,
      length-append head (length session_id ∷ (session_id ++ tail)),
      length-append session_id tail,
      length-append suites (length methods ∷ (methods ++ (put_u16 (length exts) ++ exts))),
      length-append methods (put_u16 (length exts) ++ exts),
    ) in
    let at : get_elem? hello 38 ≡ some (length session_id) =
      rw (← n) (get_elem?_at head (length session_id) (session_id ++ tail)) in
    let short : leb (length session_id) 32 ≡ true = ground arith in
    let cut : get_from (39 + length session_id) hello ≡ some tail =
      get_from_at (39 + length session_id) (head ++ (length session_id ∷ session_id)) tail _
        (omega (arith, n, length-append head (length session_id ∷ session_id)))
        (append_assoc head (length session_id ∷ session_id) tail) in
    rw (long, at, short, cut) refl

abbrev pub tls_record : (minor : ℕ) → List ℕ → List ℕ
tls_record minor hello = 0x16 ∷ 3 ∷ minor ∷ (put_u16 (length hello) ++ hello)

sniff_tls_lem :
    (minor : ℕ) (hello rest : List ℕ)
    → length hello < 65536
    → sniff_tls (tls_record minor hello ++ rest) ≡ read_client_hello hello
unfolding sniff_tls read_record read_u16
sniff_tls_lem minor hello rest h =
    let payload = tls_record minor hello ++ rest in
    let long : leb 5 (length payload) ≡ true = ground arith in
    let sized : get_from 3 payload ≡ some (put_u16 (length hello) ++ (hello ++ rest)) =
      get_from-append (0x16 ∷ 3 ∷ minor ∷ []) (put_u16 (length hello) ++ (hello ++ rest)) in
    let whole : leb (5 + length hello) (length payload) ≡ true =
      ground (arith, length-append hello rest) in
    let upto : get_to (5 + length hello) payload ≡ some (tls_record minor hello) =
      get_to_at (5 + length hello) (tls_record minor hello) rest payload (omega arith) refl in
    let inner : get_from 5 (tls_record minor hello) ≡ some hello =
      get_from-append (0x16 ∷ 3 ∷ minor ∷ put_u16 (length hello)) hello in
    rw (long, read_record, sized, u16_value (length hello) h, whole, upto, inner) refl

-- Extensions of which the first one of kind 0 lists a host name first.
abbrev pub named_extensions : (before : List (ℕ × List ℕ)) → (name names after : List ℕ) → List ℕ
named_extensions before name names after =
    extensions before ++ (extension 0 (server_name (name_entry 0 name ++ names)) ++ after)

extension_loop-named_extensions :
    (before : List (ℕ × List ℕ)) (name names after : List ℕ)
    → All IsOther before
    → IsHostName name
    → length (named_extensions before name names after) < 65536
    → extension_loop
        (length (named_extensions before name names after))
        (named_extensions before name names after)
      ≡ some name
extension_loop-named_extensions before name names after others v short =
    let entries = name_entry 0 name ++ names in
    let n = length-append (extensions before) (extension 0 (server_name entries) ++ after) in
    let m = length-append entries after in
    extension_loop_lem (length (named_extensions before name names after)) before
      (server_name entries) name after others (omega (arith, n, m, extensions_few before))
      (omega (arith, n, m, short))
      (read_server_name-server_name name names (omega (arith, n, m, short)) v)

length-client_hello :
    (head session_id suites methods exts : List ℕ)
    → length head ≡ 38
    → length (client_hello head session_id suites methods exts)
      ≡ 44 + length session_id + length suites + length methods + length exts
length-client_hello head session_id suites methods exts n =
    let tail = behind_session suites methods exts in
    omega (
      arith,
      n,
      length-append head (length session_id ∷ (session_id ++ tail)),
      length-append session_id tail,
      length-append suites (length methods ∷ (methods ++ (put_u16 (length exts) ++ exts))),
      length-append methods (put_u16 (length exts) ++ exts),
    )

sniff_found :
    (payload name : List ℕ) → sniff_tls payload ≡ some name → sniff payload ≡ some (tls, name)
unfolding sniff
sniff_found payload name h = rw (h, sniff) refl

-- A TLS record with a hello, however its fields are filled: a session id of 32 bytes at most, an even
-- number of bytes of cipher suites, any compression methods, and extensions of which the first one of
-- kind 0 has a list of names that begins with a host name. The sniffer takes the stream for TLS and
-- finds this name, whatever follows the record.
pub sniff-tls_record :
    (minor : ℕ) (head session_id suites methods : List ℕ) (before : List (ℕ × List ℕ))
    (name names after rest : List ℕ)
    → length head ≡ 38
    → length session_id ≤ 32
    → (length suites % 2 == 1) ≡ false
    → All IsOther before
    → IsHostName name
    → length
        (client_hello head session_id suites methods (named_extensions before name names after))
      < 65536
    → sniff (
        tls_record minor
          (client_hello head session_id suites methods (named_extensions before name names after))
        ++ rest)
      ≡ some (tls, name)
sniff-tls_record minor head session_id suites methods before name names after rest n s even others v
      short =
    let exts = named_extensions before name names after in
    let hello = client_hello head session_id suites methods exts in
    let size = length-client_hello head session_id suites methods exts n in
    let found : sniff_tls (tls_record minor hello ++ rest) ≡ some name =
      sniff_tls_lem minor hello rest short
      ∙ read_client_hello_lem head session_id suites methods exts n s
      ∙ read_suites_lem suites methods exts (omega (arith, size, short)) even
          (omega (arith, size, short))
      ∙ extension_loop-named_extensions before name names after others v
          (omega (arith, size, short)) in
    sniff_found (tls_record minor hello ++ rest) name found
