-- ===== src/Config/Sections.antt =====
-- The sections of a configuration file in src/gvar/geostreamd/config.c, and what their directives
-- leave alone.
use qjhart_geostreams.Prelude.{
  ℕ, ◌≡◌, ◌≢◌, ◌∙◌, refl, sym, Bool, Bool-cases, true, false, Option, none, some, List, [], ◌∷◌,
  ◌++◌, ltb, if◌then◌else◌, length, arith, subst, inl, inr, ℤ, pos, negsuc, below,
}
use qjhart_geostreams.Config.{
  Settings, GsConfig, Message, no_memory, bad_request_style, bad_write_style, invalid_cache_size,
  end_server, missing_end, other, Callback, assign, link_server, section, section_next,
  cb_server_open, cb_server_close, cb_host, cb_files, cb_port, cb_num_clients, cb_document_root,
  cb_req_style, cb_write_style, cb_cache_size, cb_facility, to_unsigned, set_req_style,
  set_write_style, style_named, split_port, set_port,
}
use qjhart_geostreams.Client.Handlers.{Style}
use qjhart_geostreams.Config.Ring.{IsRing, Fresh, Links, link_server-ring}

-- `d` is `c` but for the settings of the default and the facility.
abbrev pub Keeps : GsConfig → GsConfig → Type 0
Keeps c d =
    (d.def ≡ c.def)
    × (d.servers ≡ c.servers)
    × (d.next ≡ c.next)
    × (d.prev ≡ c.prev)
    × ((j : ℕ) → j ≢ c.def → d.server j ≡ c.server j)

Keeps-refl : (c : GsConfig) → Keeps c c
Keeps-refl c = (refl, refl, refl, refl, λ j ne. refl)

Keeps-trans : (c d e : GsConfig) → Keeps c d → Keeps d e → Keeps c e
Keeps-trans c d e k l =
    (l.0 ∙ k.0, l.1 ∙ k.1, l.2 ∙ k.2, l.3 ∙ k.3, λ j ne. l.4 j (λ eq. ne (eq ∙ k.0)) ∙ k.4 j ne)

assign-Keeps : (f : Settings → Settings) (c : GsConfig) → Keeps c (assign f c)
assign-Keeps f c = (refl, refl, refl, refl, λ j ne. ground arith)

-- The directives that a section may hold, with what the calls in them return.
pub data Directive : Type 0 where
  port num_clients cache_size facility : ℤ → Directive
  host : (List ℕ → ℤ) → Bool → Bool → List ℕ → Directive
  files document_root : Bool → List ℕ → Directive
  req_style write_style : List ℕ → Directive
  server_close : Directive

unfoldable pub run : Directive → Callback
run (port n) = cb_port n
run (num_clients n) = cb_num_clients n
run (cache_size n) = cb_cache_size n
run (facility n) = cb_facility n
run (host atoi a b str) = cb_host atoi a b str
run (files a str) = cb_files a str
run (document_root a str) = cb_document_root a str
run (req_style str) = cb_req_style str
run (write_style str) = cb_write_style str
run server_close = cb_server_close

set_req_style-Keeps : (o : Option Style) (c : GsConfig) → Keeps c (set_req_style o c).1
unfolding set_req_style
set_req_style-Keeps none c = Keeps-refl c
set_req_style-Keeps (some t) c = assign-Keeps (λ s. record s { req_style = t }) c

set_write_style-Keeps : (o : Option Style) (c : GsConfig) → Keeps c (set_write_style o c).1
unfolding set_write_style
set_write_style-Keeps none c = Keeps-refl c
set_write_style-Keeps (some t) c = assign-Keeps (λ s. record s { write_style = t }) c

-- The first assignments of cb_host.
abbrev host_and_port : (List ℕ → ℤ) → List ℕ → Settings → Settings
host_and_port atoi str s = set_port atoi (split_port str).1 (record s { host = some str })

pub run-Keeps : (d : Directive) (c : GsConfig) → Keeps c (run d c).1
unfolding run cb_req_style cb_port cb_num_clients cb_cache_size cb_facility cb_files
    cb_document_root cb_write_style cb_server_close cb_host
run-Keeps (port n) c = elim (Bool-cases (below n 1000)) [
  | inl e ↦ rw e (Keeps-refl c)
  | inr e ↦ rw e (assign-Keeps (λ s. record s { port = n }) c)
]
run-Keeps (num_clients n) c = assign-Keeps (λ s. record s { num_clients = to_unsigned n }) c
run-Keeps (cache_size n) c = elim (Bool-cases (below n 0)) [
  | inl e ↦ rw e (Keeps-refl c)
  | inr e ↦ rw e (assign-Keeps (λ s. record s { cache_size = n }) c)
]
run-Keeps (facility (pos n)) c = elim (Bool-cases (ltb n 8)) [
  | inl e ↦ rw e (refl, refl, refl, refl, λ j ne. refl)
  | inr e ↦ rw e (Keeps-refl c)
]
run-Keeps (facility (negsuc n)) c = Keeps-refl c
run-Keeps (host atoi true true str) c =
    let f = host_and_port atoi str in
    let g : Settings → Settings = λ s. record s { hostname = some (split_port str).0 } in
    Keeps-trans c (assign f c) (assign g (assign f c)) (assign-Keeps f c)
      (assign-Keeps g (assign f c))
run-Keeps (host atoi true false str) c =
    let f = host_and_port atoi str in
    let g : Settings → Settings = λ s. record s { hostname = none } in
    Keeps-trans c (assign f c) (assign g (assign f c)) (assign-Keeps f c)
      (assign-Keeps g (assign f c))
run-Keeps (host atoi false b str) c = assign-Keeps (λ s. record s { host = none }) c
run-Keeps (files true str) c = assign-Keeps (λ s. record s { files = some str }) c
run-Keeps (files false str) c = assign-Keeps (λ s. record s { files = none }) c
run-Keeps (document_root true str) c =
    assign-Keeps (λ s. record s { document_root = str; document_root_z = length str }) c
run-Keeps (document_root false str) c = Keeps-refl c
run-Keeps (req_style str) c = set_req_style-Keeps (style_named str) c
run-Keeps (write_style str) c = set_write_style-Keeps (style_named str) c
run-Keeps server_close c = Keeps-refl c

section_next-Keeps :
    (o : Option Message) (c d : GsConfig) (more : Option Message × GsConfig)
    → Keeps c d
    → Keeps c more.1
    → Keeps c (section_next o d more).1
unfolding section_next
section_next-Keeps none c d more k l = k
section_next-Keeps (some no_memory) c d more k l = l
section_next-Keeps (some bad_request_style) c d more k l = l
section_next-Keeps (some bad_write_style) c d more k l = l
section_next-Keeps (some invalid_cache_size) c d more k l = l
section_next-Keeps (some end_server) c d more k l = k
section_next-Keeps (some missing_end) c d more k l = l
section_next-Keeps (some (other t)) c d more k l = l

abbrev pub answers : Option Message → Bool
answers none = false
answers (some m) = true

-- A round of a section: dotconf_command_loop_until_error runs directives until one answers with a
-- text, which it returns, and answers NULL behind the last of them.
abbrev pub until_error : List Directive → Callback
until_error [] c = (none, c)
until_error (d ∷ ds) c =
    let (reply, c') = run d c in
    let rest = until_error ds c' in if answers reply then (reply, c') else rest

abbrev pub rounds : List (List Directive) → List Callback
rounds [] = []
rounds (ds ∷ more) = until_error ds ∷ rounds more

until_error-Keeps : (ds : List Directive) (c : GsConfig) → Keeps c (until_error ds c).1
until_error-Keeps [] c = Keeps-refl c
until_error-Keeps (d ∷ ds) c =
    let (reply, c') = run d c in
    let k = run-Keeps d c in
    elim (Bool-cases (answers reply)) [
      | inl e ↦ rw e k
      | inr e ↦ rw e (Keeps-trans c c' (until_error ds c').1 k (until_error-Keeps ds c'))
    ]

section-Keeps :
    (dss : List (List Directive)) (err : Option Message) (c : GsConfig)
    → Keeps c (section (rounds dss) err c).1
unfolding section
section-Keeps [] err c = Keeps-refl c
section-Keeps (ds ∷ dss) err c =
    let (reply, c') = until_error ds c in
    let k = until_error-Keeps ds c in
    section_next-Keeps reply c c' (section (rounds dss) reply c') k
      (Keeps-trans c c' (section (rounds dss) reply c').1 k (section-Keeps dss reply c'))

same-IsRing :
    (c d : GsConfig) (ids : List ℕ)
    → d.servers ≡ c.servers
    → d.next ≡ c.next
    → d.prev ≡ c.prev
    → IsRing c ids
    → IsRing d ids
same-IsRing c d [] es en ep r = es ∙ r
same-IsRing c d (x ∷ xs) es en ep r = (
  es ∙ r.0,
  subst (λ p. Links d.next p x (x ∷ xs)) (sym ep)
      (subst (λ n. Links n c.prev x (x ∷ xs)) (sym en) r.1),
  r.2,
)

-- A section of any number of rounds, each of any directives but another <SERVER>, ending as they
-- may, with or without errors, at its </Server> or at the end of the file: the default is what it
-- was before, the ring has the section's new server behind the others, and the
-- settings of every other server are unchanged.
pub cb_server_open-section :
    (new : ℕ) (dss : List (List Directive)) (c : GsConfig) (ids : List ℕ)
    → IsRing c ids
    → Fresh new ids
    → let d = (cb_server_open new (rounds dss) c).1 in
      (d.def ≡ c.def) × IsRing d (ids ++ new ∷ []) × ((j : ℕ) → j ≢ new → d.server j ≡ c.server j)
unfolding cb_server_open
cb_server_open-section new dss c ids r f =
    let (ring, own, others) = link_server-ring c ids new r f in
    let c1 = record (link_server new c) { def = new } in
    let k = section-Keeps dss none c1 in
    (
      refl,
      same-IsRing (link_server new c) (cb_server_open new (rounds dss) c).1 (ids ++ new ∷ []) k.1
          k.2 k.3 ring,
      λ j ne. k.4 j ne ∙ others j ne,
    )
