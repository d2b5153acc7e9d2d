-- ===== src/Tests/Servers.antt =====
-- A configuration with two servers.
use qjhart_geostreams.Prelude.{
  ℕ, ◌≡◌, ◌≢◌, arith, none, some, List, [], ◌∷◌, codes, ◌==◌, if◌then◌else◌, pos,
}
use qjhart_geostreams.Client.Handlers.{events}
use qjhart_geostreams.Config.{Settings, GsConfig, link_server, select_server, chosen}
use qjhart_geostreams.Config.Ring.{
  IsRing, IsExtended, first_named, link_server-ring, select_server-first,
}
use qjhart_geostreams.Config.{cb_server_open}
use qjhart_geostreams.Config.Sections.{
  Directive, port, req_style, server_close, num_clients, rounds, cb_server_open-section,
}

abbrev settings : List ℕ → Settings
settings name = record {
  host = some name;
  hostname = some name;
  files = none;
  port = pos 6666;
  num_clients = 2;
  document_root = codes "/var/www";
  document_root_z = 8;
  req_style = events;
  write_style = events;
  cache_size = pos 0;
}

-- The default is the server 9, and the ring 1, 2.
abbrev two : GsConfig
two = record {
  facility = 0;
  def = 9;
  servers = some 1;
  server = λ i.
      if i == 1
      then settings (codes "a")
      else if i == 2
      then settings (codes "b")
      else settings (codes "localhost");
  next = λ i. if i == 1 then 2 else 1;
  prev = λ i. if i == 1 then 2 else 1;
}

two-IsRing : IsRing two (1 ∷ 2 ∷ [])
two-IsRing = ground arith

link_server-ring_example : IsExtended two (1 ∷ 2 ∷ []) 3 (link_server 3 two)
link_server-ring_example = link_server-ring two (1 ∷ 2 ∷ []) 3 two-IsRing (ground arith)

select_server-first_example :
    select_server 2 two (codes "b") ≡ chosen (first_named two (codes "b") (1 ∷ 2 ∷ []))
select_server-first_example =
    select_server-first two (codes "b") 1 (2 ∷ []) two-IsRing (ground arith)

-- Two rounds: the first ends with an error on its second directive, the second with </Server>.
abbrev directives : List (List Directive)
directives =
    (num_clients (pos 5) ∷ req_style (codes "tasks") ∷ [])
    ∷ (port (pos 8080) ∷ req_style (codes "threads") ∷ server_close ∷ [])
    ∷ []

cb_server_open-section_example :
    ((cb_server_open 3 (rounds directives) two).1.def ≡ 9)
    × IsRing (cb_server_open 3 (rounds directives) two).1 (1 ∷ 2 ∷ 3 ∷ [])
    × ((j : ℕ) → j ≢ 3 → (cb_server_open 3 (rounds directives) two).1.server j ≡ two.server j)
cb_server_open-section_example =
    cb_server_open-section 3 directives two (1 ∷ 2 ∷ []) two-IsRing (ground arith)
