-- ===== src/Tests/Datagrams.antt =====
-- The theorems on datagrams at concrete clients.
use rl_c_client.Prelude.{replicate, ℕ, ◌≡◌, refl, ◌≢◌, none, some, List, [], ◌∷◌, ◌++◌, arith}
use rl_c_client.Prelude.Results.{ok}
use rl_c_client.Bytes.{write_le16, write_le64}
use rl_c_client.Protocol.{max_packet_size, tlv_tenant, tlv_auth_aes}
use rl_c_client.Client.Machine.{Client, Machine}
use rl_c_client.Client.Complete.Effects.{IsQuiet}
use rl_c_client.Packet.{Gcm, open_cookie, open_aes_gcm, extract_pdu_data}
use rl_c_client.Datagram.{on_datagram}
use rl_c_client.Datagram.Rejection.{on_datagram-IsQuiet}
use rl_c_client.Datagram.Answer.{IsDatagramStep, on_datagram-IsDatagramStep}
use rl_c_client.Tests.Timers.{client, machine, waiting-IsUnique}
use rl_c_client.Tests.Workflow.{toy}

-- The answer of server 3 to the request, as far as its authentication TLV.
abbrev answer : List ℕ
answer =
    write_le16 tlv_tenant
    ++ (write_le16 40
        ++ (write_le64 3
            ++ (replicate 16 1
                ++ (replicate 12 0
                    ++ (write_le16 tlv_auth_aes
                        ++ (write_le16 32 ++ (replicate 28 6 ++ replicate 12 7)))))))

-- Without a cookie and without a key nothing opens.
no_secret :
    (gcm : Gcm) (c : Client) (buf : List ℕ) (pos pdu_cap : ℕ) (pdu : List ℕ)
    → c.cookie ≡ none
    → c.aes_key ≡ none
    → extract_pdu_data gcm c buf pos pdu_cap ≢ ok pdu
unfolding extract_pdu_data open_cookie open_aes_gcm
no_secret gcm c buf pos pdu_cap pdu k a e = grind arith

on_datagram-IsQuiet_example : IsQuiet machine (on_datagram toy answer (10 ∷ []) machine).1
on_datagram-IsQuiet_example =
    on_datagram-IsQuiet toy answer (10 ∷ []) machine
      (λ tenant pos e pdu. no_secret toy client answer pos max_packet_size pdu refl refl)

-- The same client with a key.
abbrev keyed : Machine
keyed = record machine { client = record client { aes_key = some (replicate 32 4) } }

on_datagram-IsDatagramStep_example : IsDatagramStep keyed (on_datagram toy answer (10 ∷ []) keyed).1
on_datagram-IsDatagramStep_example =
    on_datagram-IsDatagramStep toy answer (10 ∷ []) keyed waiting-IsUnique
