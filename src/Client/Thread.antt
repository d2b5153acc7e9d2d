-- ===== src/Client/Thread.antt =====
-- pthread_client_request of src/gvar/geostreamd/client.c: what it frees, and what it gives back.
use qjhart_geostreams.Prelude.{
  ℕ, ◌≡◌, ◌≢◌, ◌∙◌, refl, Bool, true, false, Option, none, some, List, [], ◌∷◌, ◌++◌, ◌==◌, ◌||◌,
  Bool-cases, inl, inr, arith,
}
use qjhart_geostreams.Buffer.{Buffer}
use qjhart_geostreams.Request.Parse.{minus_one}
use qjhart_geostreams.Client.Read.{closed}
use qjhart_geostreams.Client.Handlers.{
  FileFd, unset, mapped, opened, Conn, Call, file_calls, keep_calls, drop_calls,
  client_reset_or_free, send_headers, Round, file_sent, thread_end, next_calls, after_headers,
  on_request_thread,
}
use qjhart_geostreams.Client.Continues.{frees, releases, total, total-append}

file_calls-frees : (o : Option FileFd) → total frees (file_calls o) ≡ 0
unfolding file_calls
file_calls-frees none = refl
file_calls-frees (some unset) = refl
file_calls-frees (some mapped) = refl
file_calls-frees (some (opened n)) = refl

drop_calls-frees : (fd : ℕ) → total frees (drop_calls fd) ≡ 1
unfolding drop_calls
drop_calls-frees fd = ground arith

-- A number of frees that fits how a thread stands.
abbrev pub freed : Bool → ℕ
freed true = 1
freed false = 0

thread_end-frees : (c : Conn) → total frees (thread_end c).0 ≡ 1
unfolding thread_end client_reset_or_free
thread_end-frees c =
    total-append frees (file_calls c.file) (drop_calls c.fd)
    ∙ rw (file_calls-frees c.file, drop_calls-frees c.fd)

keep-frees : (c : Conn) → total frees (client_reset_or_free c true).0 ≡ 0
unfolding client_reset_or_free keep_calls
keep-frees c = ground (
  arith,
  total-append frees (file_calls c.file) (keep_calls c.req_style),
  file_calls-frees c.file,
)

file_sent-frees : (c : Conn) → total frees (file_sent c) ≡ 0
unfolding file_sent
file_sent-frees c = ground arith

next_calls-frees :
    (next : Conn → List Call × Bool) (keep : Bool) (c : Conn)
    → ((c : Conn) → total frees (next c).0 ≡ freed (next c).1)
    → total frees (next_calls next keep c).0 ≡ freed (next_calls next keep c).1
unfolding thread_end
next_calls-frees next true c h = h c
next_calls-frees next false c h = thread_end-frees c

after_headers-frees :
    (next : Conn → List Call × Bool) (c : Conn) (o : Option (Bool × Buffer))
    → ((c : Conn) → total frees (next c).0 ≡ freed (next c).1)
    → total frees (after_headers next c o).0 ≡ freed (after_headers next c o).1
unfolding after_headers
after_headers-frees next c none h = refl
after_headers-frees next c (some (true, b)) h =
    omega (arith, thread_end-frees (record c { buffer = b }))
after_headers-frees next c (some (false, b)) h =
    let kept = client_reset_or_free (record c { buffer = b }) true in
    let more = next_calls next c.keep_alive kept.1 in
    omega (
      arith,
      total-append frees (file_sent c) (kept.0 ++ more.0),
      total-append frees kept.0 more.0,
      file_sent-frees c,
      keep-frees (record c { buffer = b }),
      next_calls-frees next c.keep_alive kept.1 h,
    )

-- pthread_client_request, over whatever its calls return, frees its client once when it comes to
-- its end, and does not free it before.
pub on_request_thread-frees :
    (xs : List Round) (c : Conn)
    → total frees (on_request_thread xs c).0 ≡ freed (on_request_thread xs c).1
unfolding on_request_thread
on_request_thread-frees [] c = refl
on_request_thread-frees (x ∷ xs) c =
    let c2 = record (x.request c).1 { response = (x.request c).0 } in
    let c3 = record c2 { buffer = x.prepared } in
    elim (Bool-cases ((x.request c).0 == closed || (x.request c).0 == minus_one)) [
      | inl last ↦ rw last (thread_end-frees c2)
      | inr more ↦ rw more (
          after_headers-frees (on_request_thread xs) c3 (send_headers x.writes x.prepared)
            (on_request_thread-frees xs))
    ]

file_calls-releases : (fd : FileFd) → total releases (file_calls (some fd)) ≡ 1
unfolding file_calls
file_calls-releases unset = refl
file_calls-releases mapped = refl
file_calls-releases (opened n) = refl

-- A reset gives the file back, and the client still holds it afterwards.
reset-releases :
    (c : Conn) (keep : Bool) (fd : FileFd)
    → c.file ≡ some fd
    → (total releases (client_reset_or_free c keep).0 ≡ 1)
      × ((client_reset_or_free c keep).1.file ≡ some unset)
unfolding client_reset_or_free keep_calls drop_calls
reset-releases c true fd h = rw h (
  ground (
    arith,
    total-append releases (file_calls (some fd)) (keep_calls c.req_style),
    file_calls-releases fd,
  ),
  refl,
)
reset-releases c false fd h = rw h (
  ground (
    arith,
    total-append releases (file_calls (some fd)) (drop_calls c.fd),
    file_calls-releases fd,
  ),
  refl,
)

file_sent-releases : (c : Conn) → total releases (file_sent c) ≡ 0
unfolding file_sent
file_sent-releases c = ground arith

next_calls-releases :
    (next : Conn → List Call × Bool) (keep : Bool) (c : Conn)
    → keep ≡ false
    → total releases (client_reset_or_free c false).0 ≡ 1
    → total releases (next_calls next keep c).0 ≡ 1
unfolding thread_end
next_calls-releases next keep c e h = rw e h

after_headers-releases :
    (next : Conn → List Call × Bool) (c : Conn) (fd : FileFd) (b : Buffer)
    → c.file ≡ some fd
    → c.keep_alive ≡ false
    → total releases (after_headers next c (some (false, b))).0 ≡ 2
unfolding after_headers
after_headers-releases next c fd b ef ek =
    let kept = client_reset_or_free (record c { buffer = b }) true in
    let (first, held) = reset-releases (record c { buffer = b }) true fd ef in
    let second = (reset-releases kept.1 false unset held).0 in
    omega (
      arith,
      total-append releases (file_sent c) (kept.0 ++ (next_calls next c.keep_alive kept.1).0),
      total-append releases kept.0 (next_calls next c.keep_alive kept.1).0,
      file_sent-releases c,
      first,
      next_calls-releases next c.keep_alive kept.1 ek second,
    )

-- pthread_client_request, when it has answered a request for which the client holds a file of the
-- cache, and the client is not kept: it gives the file back to the cache twice.
pub thread_releases_twice :
    (x : Round) (xs : List Round) (c : Conn) (fd : FileFd) (b : Buffer)
    → (x.request c).0 ≢ closed
    → (x.request c).0 ≢ minus_one
    → (x.request c).1.file ≡ some fd
    → (x.request c).1.keep_alive ≡ false
    → send_headers x.writes x.prepared ≡ some (false, b)
    → total releases (on_request_thread (x ∷ xs) c).0 ≡ 2
unfolding on_request_thread
thread_releases_twice x xs c fd b n1 n2 ef ek es =
    let c2 = record (x.request c).1 { response = (x.request c).0 } in
    let c3 = record c2 { buffer = x.prepared } in
    elim (Bool-cases ((x.request c).0 == closed || (x.request c).0 == minus_one)) [
      | inl last ↦ absurd (ground arith)
      | inr more ↦ rw (more, es) (after_headers-releases (on_request_thread xs) c3 fd b ef ek)
    ]
