-- ===== src/Config.antt =====
-- The configuration of src/gvar/geostreamd/config.c and geostreamd.c: the callbacks of the
-- directives, the ring of servers that the sections of the file make, and the choice of a server at
-- the start. Reading the file is dotconf's work: a callback takes the value that dotconf hands it.
-- The servers are named by numbers, and `server`, `next` and `prev` are their fields.
pub mod Ring
pub mod Sections
use qjhart_geostreams.Prelude.{
  ℕ, zero, suc, ◌+◌, ◌-◌, ◌%◌, ◌^◌, Bool, true, false, Option, none, some, List, [], ◌∷◌, ◌==◌, ltb,
  codes, same, if◌then◌else◌, length, ℤ, pos, negsuc, below,
}
use qjhart_geostreams.Request.HeaderList.{same_nocase}
use qjhart_geostreams.Client.Handlers.{Style, threads, events}

-- `struct server`, less its place in the ring and its clients. `none` is NULL.
pub record Settings : Type 0 where
  pub host : Option (List ℕ)
  pub hostname : Option (List ℕ)
  pub files : Option (List ℕ)
  pub port : ℤ
  pub num_clients : ℕ
  pub document_root : List ℕ
  pub document_root_z : ℕ
  pub req_style : Style
  pub write_style : Style
  pub cache_size : ℤ

-- `struct gs_config`, with the servers that it reaches. `facility` is the number behind LOG_LOCAL.
pub record GsConfig : Type 0 where
  pub facility : ℕ
  pub def : ℕ
  pub servers : Option ℕ
  pub server : ℕ → Settings
  pub next : ℕ → ℕ
  pub prev : ℕ → ℕ

-- What a callback returns, NULL being `none`: the texts of config.c, or another text.
pub data Message : Type 0 where
  no_memory bad_request_style bad_write_style invalid_cache_size end_server missing_end : Message
  other : List ℕ → Message

abbrev pub set_at : {A : Type 0} → (ℕ → A) → ℕ → A → ℕ → A
set_at f i v j = if j == i then v else f j

abbrev pub Callback : Type 0
Callback = GsConfig → Option Message × GsConfig

-- An assignment to fields of `*config->def`.
abbrev pub assign : (Settings → Settings) → GsConfig → GsConfig
assign f c = record c { server = set_at c.server c.def (f (c.server c.def)) }

-- `server_new`, where `malloc` returns the block `new`: its fields are those of the default. The
-- new server is the first one, or goes between the last one and the first.
unfoldable pub link_behind : ℕ → GsConfig → Option ℕ → GsConfig
link_behind new c none = record c {
  server = set_at c.server new (c.server c.def);
  servers = some new;
  next = set_at c.next new new;
  prev = set_at c.prev new new;
}
link_behind new c (some h) = record c {
  server = set_at c.server new (c.server c.def);
  next = set_at (set_at c.next (c.prev h) new) new h;
  prev = set_at (set_at c.prev new (c.prev h)) h new;
}

unfoldable pub link_server : ℕ → GsConfig → GsConfig
link_server new c = link_behind new c c.servers

-- The loop of `cb_server_open`. A round is a call of `dotconf_command_loop_until_error`, which runs
-- any number of directives, and the rounds end where the file does.
unfoldable pub section_next :
    Option Message → GsConfig → Option Message × GsConfig → Option Message × GsConfig
section_next none c more = (some missing_end, c)
section_next (some end_server) c more = (some end_server, c)
section_next (some m) c more = more

unfoldable pub section : List Callback → Option Message → Callback
section [] err c = (err, c)
section (round ∷ rounds) err c =
    let (reply, c') = round c in section_next reply c' (section rounds reply c')

unfoldable pub section_reply : Option Message → Option Message
section_reply (some end_server) = none
section_reply err = err

unfoldable pub cb_server_open : ℕ → List Callback → Callback
unfolding section section_reply
cb_server_open new rounds c =
    let (err, c') = section rounds none (record (link_server new c) { def = new }) in
    (section_reply err, record c' { def = c.def })

unfoldable pub cb_server_close : Callback
cb_server_close c = (some end_server, c)

-- The bytes before the first `:`, and those behind it.
unfoldable pub split_port : List ℕ → List ℕ × Option (List ℕ)
split_port [] = ([], none)
split_port (x ∷ xs) =
    let (name, port) = split_port xs in if x == b':' then ([], some xs) else (x ∷ name, port)

unfoldable pub set_port : (List ℕ → ℤ) → Option (List ℕ) → Settings → Settings
set_port atoi none s = s
set_port atoi (some text) s = record s { port = atoi text }

-- `copied` and `copied'` are whether the two calls of `strdup` succeed.
unfoldable pub cb_host : (List ℕ → ℤ) → Bool → Bool → List ℕ → Callback
unfolding split_port set_port
cb_host atoi copied copied' str c =
    if copied
    then (let (name, port) = split_port str in
        let c' = assign (λ s. set_port atoi port (record s { host = some str })) c in
        if copied'
        then (none, assign (λ s. record s { hostname = some name }) c')
        else (some no_memory, assign (λ s. record s { hostname = none }) c'))
    else (some no_memory, assign (λ s. record s { host = none }) c)

unfoldable pub cb_files : Bool → List ℕ → Callback
cb_files copied str c =
    if copied
    then (none, assign (λ s. record s { files = some str }) c)
    else (some no_memory, assign (λ s. record s { files = none }) c)

unfoldable pub cb_port : ℤ → Callback
cb_port port c =
    if below port 1000 then (none, c) else (none, assign (λ s. record s { port = port }) c)

-- An `int` as an `unsigned int`.
unfoldable pub to_unsigned : ℤ → ℕ
to_unsigned (pos n) = n % 2 ^ 32
to_unsigned (negsuc n) = 2 ^ 32 - 1 - n % 2 ^ 32

-- The warning of a number below 1 changes nothing.
unfoldable pub cb_num_clients : ℤ → Callback
cb_num_clients n c = (none, assign (λ s. record s { num_clients = to_unsigned n }) c)

unfoldable pub cb_document_root : Bool → List ℕ → Callback
cb_document_root copied root c =
    if copied
    then (none, assign (λ s. record s { document_root = root; document_root_z = length root }) c)
    else (some no_memory, c)

-- The two styles by their names, in any case of the letters: same_nocase takes the second text in
-- lower case.
unfoldable pub style_named : List ℕ → Option Style
style_named str =
    if same_nocase str (codes "threads")
    then some threads
    else if same_nocase str (codes "events")
    then some events
    else none

unfoldable pub set_req_style : Option Style → Callback
set_req_style none c = (some bad_request_style, c)
set_req_style (some t) c = (none, assign (λ s. record s { req_style = t }) c)

unfoldable pub cb_req_style : List ℕ → Callback
cb_req_style str c = set_req_style (style_named str) c

unfoldable pub set_write_style : Option Style → Callback
set_write_style none c = (some bad_write_style, c)
set_write_style (some t) c = (none, assign (λ s. record s { write_style = t }) c)

unfoldable pub cb_write_style : List ℕ → Callback
cb_write_style str c = set_write_style (style_named str) c

unfoldable pub cb_cache_size : ℤ → Callback
cb_cache_size n c =
    if below n 0
    then (some invalid_cache_size, c)
    else (none, assign (λ s. record s { cache_size = n }) c)

unfoldable pub cb_facility : ℤ → Callback
cb_facility (pos f) c = if ltb f 8 then (none, record c { facility = f }) else (none, c)
cb_facility (negsuc f) c = (none, c)

-- The choice in `main`: the server, a NULL that is dereferenced, or more rounds than the fuel.
pub data Selected : Type 0 where
  chosen : ℕ → Selected
  fault out_of_fuel : Selected

-- The `do` loop from the server `p` on.
unfoldable pub select_from : ℕ → GsConfig → List ℕ → ℕ → ℕ → Selected
select_from zero c hostname head p = out_of_fuel
select_from (suc fuel) c hostname head p =
    let rest = select_from fuel c hostname head (c.next p) in
    elim (c.server p).host [
      | none ↦ fault
      | some host ↦
          if same host hostname then chosen p else if c.next p == head then chosen c.def else rest
    ]

unfoldable pub select_head : ℕ → GsConfig → List ℕ → Option ℕ → Selected
select_head fuel c hostname none = fault
select_head fuel c hostname (some head) = select_from fuel c hostname head head

unfoldable pub select_server : ℕ → GsConfig → List ℕ → Selected
select_server fuel c hostname = select_head fuel c hostname c.servers
