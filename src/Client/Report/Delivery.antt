-- ===== src/Client/Report/Delivery.antt =====
-- What a latency report leaves behind (r_client_report_latency).
use rl_c_client.Prelude.{
  ltb, leb, ◌==◌, if◌then◌else◌, Bool-cases, if_both, length, ℕ, ◌+◌, ◌-◌, ◌≤◌, ◌≡◌, refl, sym, ap,
  ◌∙◌, inl, inr, true, false, not, List, [], ◌∷◌, arith,
}
use rl_c_client.Prelude.Results.{
  err_protocol, err_dns, Result, ok, err, fault, guard, ◌>>=◌, ◌>>◌, Ensures,
}
use rl_c_client.Protocol.{max_packet_size, ServiceLatencyReport}
use rl_c_client.Protocol.Header.{tenant_header_bytes}
use rl_c_client.Client.Machine.{
  Endpoint, Client, Event, sent, Machine, M, pure, set_client, now_ms, udp_send, rand_bytes,
}
use rl_c_client.Client.Send.{record_send_failures}
use rl_c_client.Client.Complete.{is_nil}
use rl_c_client.Client.Complete.Effects.{
  IsQuiet, IsQuiet-refl, IsQuiet-trans, now_ms-IsQuiet, rand_bytes-IsQuiet, udp_send-IsQuiet,
  record_send_failures-same,
}
use rl_c_client.Client.Discovery.Quiet.{Stays}
use rl_c_client.Client.Discovery.QuietStart.{dns_maybe_refresh-Stays}
use rl_c_client.Client.Discovery.Start.{dns_maybe_refresh}
use rl_c_client.Client.Submit.{generate_request_id, continue, chain, on_machine}
use rl_c_client.Client.Submit.Ready.{Any, Ensures-Any}
use rl_c_client.Client.Report.{
  report_pdu, report_header, deliver, end_delivery, deliver_report, seal_report, report_to_servers,
  report_latency,
}
use rl_c_client.Packet.{Gcm, seal_pdu}

-- The datagrams of one packet to some servers in turn, the latest first.
abbrev pub sends : List Endpoint → List ℕ → List Event → List Event
sends [] packet trace = trace
sends (e ∷ es) packet trace = sends es packet (sent e.addr packet ∷ trace)

deliver-trace :
    (es : List Endpoint) (packet : List ℕ) (n : ℕ) (s : Machine)
    → (deliver es packet n s).1.host.trace ≡ sends es packet s.host.trace
unfolding deliver udp_send
deliver-trace [] packet n s = refl
deliver-trace (e ∷ es) packet n s =
    let (works, t) = udp_send e.addr packet s in
    deliver-trace es packet (if works then n + 1 else n) t

deliver-IsQuiet :
    (es : List Endpoint) (packet : List ℕ) (n : ℕ) (s : Machine)
    → IsQuiet s (deliver es packet n s).1
unfolding deliver
deliver-IsQuiet [] packet n s = IsQuiet-refl s
deliver-IsQuiet (e ∷ es) packet n s =
    let (works, t) = udp_send e.addr packet s in
    IsQuiet-trans (udp_send-IsQuiet e.addr packet s)
      (deliver-IsQuiet es packet (if works then n + 1 else n) t)

-- A report that was sent: the requests are as before, and the last datagrams are one and the same
-- packet, of at most `max_packet_size` bytes, to every server that the client now has, each once
-- and in their order.
pub record IsReported (s t : Machine) : Type 0 where
  pub quiet : IsQuiet s t
  pub packet : List ℕ
  pub earlier : List Event
  pub fits : length packet ≤ max_packet_size
  pub delivered : t.host.trace ≡ sends t.client.servers packet earlier

abbrev pub IsReport : Machine → Result (Unit {0}) × Machine → Type 0
IsReport s (ok done, t) = IsReported s t
IsReport s (err e, t) = IsQuiet s t
IsReport s (fault, t) = IsQuiet s t

deliver-client :
    (es : List Endpoint) (packet : List ℕ) (n : ℕ) (s : Machine)
    → (deliver es packet n s).1.client ≡ s.client
unfolding deliver udp_send
deliver-client [] packet n s = refl
deliver-client (e ∷ es) packet n s =
    let (works, t) = udp_send e.addr packet s in
    deliver-client es packet (if works then n + 1 else n) t

record_send_failures-servers : (n : ℕ) (c : Client) → (record_send_failures n c).servers ≡ c.servers
unfolding record_send_failures
record_send_failures-servers n c = ground arith

failures-IsQuiet :
    (n : ℕ) (s : Machine) → IsQuiet s (set_client s (record_send_failures n s.client))
failures-IsQuiet n s = record {
  inflight = (record_send_failures-same n s.client).0;
  policy = (record_send_failures-same n s.client).1;
  completions = refl;
  called = refl;
}

module _ (s : Machine) (packet : List ℕ) (fits : length packet ≤ max_packet_size) where
  module _ (earlier : List Event) where
    end_delivery-IsReport :
        (count delivered : ℕ) (t : Machine)
        → IsQuiet s t
        → t.host.trace ≡ sends t.client.servers packet earlier
        → IsReport s (end_delivery count delivered t)
    unfolding end_delivery
    end_delivery-IsReport count delivered t q sent_all =
        let failed = record_send_failures (count - delivered) t.client in
        elim (Bool-cases (delivered == 0)) [
          | inl e ↦ rw e q
          | inr e ↦ elim (Bool-cases (ltb delivered count)) [
            | inl f ↦
                rw (e, f)
                  (record {
                    quiet = IsQuiet-trans q (failures-IsQuiet (count - delivered) t);
                    packet = packet;
                    earlier = earlier;
                    fits = fits;
                    delivered =
                        rw (record_send_failures-servers (count - delivered) t.client) sent_all;
                  })
            | inr f ↦
                rw (e, f)
                  (record {
                    quiet = q;
                    packet = packet;
                    earlier = earlier;
                    fits = fits;
                    delivered = sent_all;
                  })
          ]
        ]

  deliver_report-IsReport :
      (servers : List Endpoint) (t : Machine)
      → IsQuiet s t
      → t.client.servers ≡ servers
      → IsReport s (deliver_report servers packet t)
  unfolding deliver_report
  deliver_report-IsReport servers t q has =
      let (delivered, u) = deliver servers packet 0 t in
      let keep : u.client.servers ≡ servers =
        ap (λ c. c.servers) (deliver-client servers packet 0 t) ∙ has in
      end_delivery-IsReport t.host.trace (length servers) delivered u
        (IsQuiet-trans q (deliver-IsQuiet servers packet 0 t))
        (deliver-trace servers packet 0 t ∙ ap (λ es. sends es packet t.host.trace) (sym keep))

-- A step that does not touch the client, and whose value, if any, satisfies `P`.
abbrev Keeps : {A : Type 0} → (A → Type 0) → Machine → Result A × Machine → Type 0
Keeps P s (r, t) = IsQuiet s t × ((t.client ≡ s.client) × Ensures P r)

Keeps-continue :
    {A B : Type 0} (P : A → Type 0) (Q : B → Type 0) (s t : Machine) (r : Result A)
    (next : A → M (Result B))
    → Keeps P s (r, t)
    → ((a : A) (u : Machine) → Keeps Q u (next a u))
    → Keeps Q s (continue r next t)
unfolding continue
Keeps-continue P Q s t (ok a) next (q, (same, p)) h =
    let (q', (same', p')) = h a t in (IsQuiet-trans q q', (same' ∙ same, p'))
Keeps-continue P Q s t (err e) next (q, (same, p)) h = (q, (same, tt))
Keeps-continue P Q s t fault next (q, (same, p)) h = (q, (same, tt))

abbrev Fits : List ℕ → Type 0
Fits packet = length packet ≤ max_packet_size

capped-Fits :
    (m : Result (List ℕ))
    → Ensures Fits
        (do packet ← m; guard (leb (length packet) max_packet_size) err_protocol; ok packet)
capped-Fits (ok packet) = ground arith
capped-Fits (err e) = tt
capped-Fits fault = tt

generate_request_id-Keeps : (s : Machine) → Keeps (λ (id : List ℕ). Unit) s (generate_request_id s)
unfolding generate_request_id rand_bytes
generate_request_id-Keeps s = (rand_bytes-IsQuiet 16 s, (refl, Ensures-Any _))

now_rand-client : (s : Machine) → (rand_bytes 12 (now_ms s).1).1.client ≡ s.client
unfolding rand_bytes now_ms
now_rand-client s = ground arith

seal_report-Keeps : (gcm : Gcm) (pdu : List ℕ) (s : Machine) → Keeps Fits s (seal_report gcm pdu s)
unfolding seal_report chain
seal_report-Keeps gcm pdu s =
    let (id, t) = generate_request_id s in
    Keeps-continue (λ id. Unit) Fits s t id _ (generate_request_id-Keeps s)
      λ id u.
        let (now, u1) = now_ms u in
        let (drawn, u2) = rand_bytes 12 u1 in
        let made =
          seal_pdu gcm u.client.auth_type u.client drawn
            (tenant_header_bytes (report_header u.client id now)) pdu max_packet_size in
        (
          IsQuiet-trans (now_ms-IsQuiet u) (rand_bytes-IsQuiet 12 u1),
          (now_rand-client u, capped-Fits made),
        )

IsReport-continue :
    {A : Type 0} (P : A → Type 0) (s t : Machine) (r : Result A) (next : A → M (Result (Unit {0})))
    → IsQuiet s t
    → Ensures P r
    → ((a : A) → P a → IsReport s (next a t))
    → IsReport s (continue r next t)
unfolding continue
IsReport-continue P s t (ok a) next q p h = h a p
IsReport-continue P s t (err e) next q p h = q
IsReport-continue P s t fault next q p h = q

forced-IsReport :
    (s : Machine) (refreshed : Result Machine)
    → Stays s refreshed
    → IsReport s (on_machine refreshed s (pure (err err_dns)))
forced-IsReport s (ok t) q = q
forced-IsReport s (err e) q = IsQuiet-refl s
forced-IsReport s fault q = IsQuiet-refl s

report_to_servers-IsReport :
    (gcm : Gcm) (servers : List Endpoint) (reports : List ServiceLatencyReport) (s : Machine)
    → s.client.servers ≡ servers
    → IsReport s (report_to_servers gcm servers reports s)
unfolding report_to_servers chain
report_to_servers-IsReport gcm [] reports s has =
    forced-IsReport s (dns_maybe_refresh true s) (dns_maybe_refresh-Stays true s)
report_to_servers-IsReport gcm (e ∷ es) reports s has =
    IsReport-continue Any s s (report_pdu reports)
      (λ pdu. chain (seal_report gcm pdu) λ packet. deliver_report (e ∷ es) packet) (IsQuiet-refl s)
      (Ensures-Any (report_pdu reports))
      λ pdu _.
        let (packet, t) = seal_report gcm pdu s in
        let (quiet, (same, fits)) = seal_report-Keeps gcm pdu s in
        IsReport-continue Fits s t packet (λ packet. deliver_report (e ∷ es) packet) quiet fits
          λ packet fits.
            deliver_report-IsReport s packet fits (e ∷ es) t quiet (ap (λ c. c.servers) same ∙ has)

IsReport-after :
    (s t : Machine) (done : Result (Unit {0}) × Machine)
    → IsQuiet s t
    → IsReport t done
    → IsReport s done
IsReport-after s t (ok done, u) q r = record {
  quiet = IsQuiet-trans q r.quiet;
  packet = r.packet;
  earlier = r.earlier;
  fits = r.fits;
  delivered = r.delivered;
}
IsReport-after s t (err e, u) q r = IsQuiet-trans q r
IsReport-after s t (fault, u) q r = IsQuiet-trans q r

refreshed-IsReport :
    (gcm : Gcm) (reports : List ServiceLatencyReport) (s : Machine) (refreshed : Result Machine)
    → Stays s refreshed
    → IsReport s (on_machine refreshed s (λ t. report_to_servers gcm t.client.servers reports t))
refreshed-IsReport gcm reports s (ok t) q =
    IsReport-after s t (report_to_servers gcm t.client.servers reports t) q
      (report_to_servers-IsReport gcm t.client.servers reports t refl)
refreshed-IsReport gcm reports s (err e) q = IsQuiet-refl s
refreshed-IsReport gcm reports s fault q = IsQuiet-refl s

-- A latency report, whatever the resolver, the clock, OpenSSL and the sockets do: the requests in
-- flight and the policy stay and nothing is called back. If it succeeds, its last datagrams are one
-- packet of at most `max_packet_size` bytes to every server of the client, each once and in order.
pub report_latency-IsReport :
    (gcm : Gcm) (reports : List ServiceLatencyReport) (s : Machine)
    → IsReport s (report_latency gcm reports s)
unfolding report_latency
report_latency-IsReport gcm reports s =
    let rest =
      refreshed-IsReport gcm reports s (dns_maybe_refresh false s)
        (dns_maybe_refresh-Stays false s) in
    if_both (IsReport s) (is_nil reports) _ _ (IsQuiet-refl s)
      (if_both (IsReport s) (not s.client.has_udp_send) _ _ (IsQuiet-refl s) rest)

-- A report completes nothing.
pub IsReport-IsQuiet :
    (s : Machine) (done : Result (Unit {0}) × Machine) → IsReport s done → IsQuiet s done.1
IsReport-IsQuiet s (ok done, t) r = r.quiet
IsReport-IsQuiet s (err e, t) q = q
IsReport-IsQuiet s (fault, t) q = q
