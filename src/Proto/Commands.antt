-- ===== src/Proto/Commands.antt =====
-- The commands of protocol v2: hello, prompt_cancel and wifi (src/proto_parse.h).
use sticks3_buddy.Prelude.{
  ℕ, Bool, true, false, ◌&&◌, none, some, List, [], ◌∷◌, ◌++◌, ltb, leb, if◌then◌else◌, length, pos,
  clamp_int, decimal, Bytes, codes, bytes_eq, non_empty, strncpy,
}
use sticks3_buddy.Text.Utf8.{sanitize}
use sticks3_buddy.Proto.Json.{Json}
use sticks3_buddy.Proto.Device.{Device, Wire}
use sticks3_buddy.Proto.State.{
  TamaState, ProtoState, ProtoHello, Transport, ask_clear, prompt_clear, proto_ver, is_bt,
}
use Prim.Native.Nat.{bit_or}
use sticks3_buddy.Sessions
use sticks3_buddy.Wifi.Networks.{Outcome, counted, list_full, list_err}
use sticks3_buddy.Proto.Reply.{snprintf, bool_text, text_or, cap_bit, send, maybe_rxack}

abbrev pub wifi_line : Bool → ℕ → Bytes
wifi_line ok n =
    codes "{\"ack\":\"wifi\",\"ok\":"
    ++ (bool_text ok ++ (codes ",\"n\":" ++ (decimal n ++ codes "}")))

abbrev pub succeeded : Outcome → Bool
succeeded (counted n) = true
succeeded list_full = false
succeeded list_err = false

abbrev pub is_full : Outcome → Bool
is_full (counted n) = false
is_full list_full = true
is_full list_err = false

-- ssid && ssid[0] && strlen(ssid) <= 32
abbrev pub good_ssid : Bytes → Bool
good_ssid ssid = non_empty ssid && leb (length ssid) 32

module _ {V : Type 0} (json : Json V) where
  -- for (JsonVariant c : doc["caps"].as<JsonArray>())
  unfoldable pub caps_loop : List V → ℕ → ℕ
  caps_loop [] caps = caps
  caps_loop (c ∷ cs) caps =
      caps_loop cs (elim (json.str c) [ none ↦ caps | some s ↦ bit_or caps (cap_bit s) ])

  -- int hostProto = doc["proto"] | 1, between 1 and 255
  unfoldable pub host_proto : V → ℕ
  host_proto doc = clamp_int 1 255 (json.int_or (json.member doc (codes "proto")) (pos 1))

  unfoldable pub hello_of : V → Transport → ProtoHello
  unfolding host_proto
  hello_of doc transport =
      let ho = json.member doc (codes "host") in
      record {
        id = strncpy 9 (text_or json (json.member ho (codes "id")));
        name = sanitize 24 (some (text_or json (json.member ho (codes "name"))));
        app = sanitize 12 (some (text_or json (json.member ho (codes "app"))));
        ver = sanitize 12 (some (text_or json (json.member ho (codes "ver"))));
        proto = host_proto doc;
        via_ble = is_bt transport;
      }

  -- What a hello makes of the connection.
  unfoldable pub greeted : V → ProtoState → ProtoState
  unfolding host_proto caps_loop
  greeted doc ps = record ps {
    hello_seen = true;
    host_caps = caps_loop (json.items (json.member doc (codes "caps"))) 0;
    eff_proto = if ltb (host_proto doc) proto_ver then host_proto doc else proto_ver;
  }

  -- id && id[0] && out->promptId[0] && strcmp(id, out->promptId) == 0
  abbrev pub cancels : V → TamaState → Bool
  cancels doc t =
      let id = text_or json (json.member doc (codes "id")) in
      non_empty id && (non_empty t.prompt_id && bytes_eq id t.prompt_id)

module _ {V D : Type 0} (json : Json V) (dev : Device V D) where
  unfoldable pub hello_line : Bool → D → Bytes
  hello_line sel d = snprintf 288 (
      codes "{\"ack\":\"hello\",\"ok\":true,\"proto\":"
      ++ (decimal proto_ver
          ++ (codes ",\"data\":{\"fw\":\""
              ++ (dev.fw_version
                  ++ (codes "\",\"board\":\""
                      ++ (dev.board_name d
                          ++ (codes "\",\"name\":\""
                              ++ (dev.device_name d
                                  ++ (codes
                                        "\",\"caps\":[\"sessions\",\"ask\",\"rxack\",\"cancel\",\"ntfy\"],\"maxSessions\":"
                                      ++ (decimal Sessions.max_sessions
                                          ++ (codes ",\"maxLine\":"
                                              ++ (decimal dev.line_buf
                                                  ++ (codes ",\"sel\":"
                                                      ++ (bool_text sel ++ codes "}}"))))))))))))))

  -- _protoHello
  unfoldable pub hello : V → Wire D → Wire D
  unfolding greeted
  hello doc w =
      let (d, sel) = dev.hello_accept (hello_of json doc w.ps.transport) w.dev in
      send dev (hello_line sel d) (record w {
        ps = greeted json doc w.ps;
        sessions = Sessions.clear w.sessions;
        tama = ask_clear w.tama;
        dev = d;
      })

  unfoldable pub prompt_cancel : V → Wire D → Wire D
  prompt_cancel doc w =
      let ok = cancels json doc w.tama in
      maybe_rxack dev (
        send dev
          (snprintf 56 (codes "{\"ack\":\"prompt_cancel\",\"ok\":" ++ (bool_text ok ++ codes "}")))
          (record w { tama = if ok then prompt_clear w.tama else w.tama }))

  -- The text of names goes through a buffer of 928 bytes.
  unfoldable pub wifi_list : D → D × Bytes
  wifi_list d =
      let (d', names, shown) = dev.wifi_ssids 928 d in
      (
        d',
        codes "{\"ack\":\"wifi\",\"ok\":true,\"ssids\":["
            ++ (names
                ++ (codes "],\"n\":"
                    ++ (decimal (dev.wifi_count d')
                        ++ (if ltb shown (dev.wifi_count d')
                            then codes ",\"trunc\":true}"
                            else codes "}")))),
      )

  unfoldable pub wifi_remove : V → D → D × Bytes
  wifi_remove doc d =
      let ssid = text_or json (json.member doc (codes "ssid")) in
      let (d', r) = if good_ssid ssid then dev.wifi_remove ssid d else (d, list_err) in
      (d', wifi_line (succeeded r) (dev.wifi_count d'))

  unfoldable pub wifi_upsert : V → D → D × Bytes
  wifi_upsert doc d =
      let ssid = text_or json (json.member doc (codes "ssid")) in
      let pass = text_or json (json.member doc (codes "pass")) in
      let (d', r) =
        if good_ssid ssid && leb (length pass) 63
        then dev.wifi_upsert ssid pass d
        else (d, list_err) in
      (
        d',
        if is_full r
            then codes "{\"ack\":\"wifi\",\"ok\":false,\"error\":\"full\",\"n\":"
              ++ (decimal (dev.wifi_count d') ++ codes "}")
            else wifi_line (succeeded r) (dev.wifi_count d'),
      )

  unfoldable pub wifi_clear : D → D × Bytes
  wifi_clear d = let (d', ok) = dev.wifi_clear d in (d', wifi_line ok (dev.wifi_count d'))

  -- The sub-command and its reply.
  unfoldable pub wifi_run : V → D → D × Bytes
  unfolding wifi_list wifi_clear wifi_remove wifi_upsert
  wifi_run doc d =
      if json.bool_or (json.member doc (codes "list")) false
      then wifi_list d
      else if json.bool_or (json.member doc (codes "clear")) false
      then wifi_clear d
      else if json.bool_or (json.member doc (codes "remove")) false
      then wifi_remove doc d
      else wifi_upsert doc d

  unfoldable pub wifi : V → Wire D → Wire D
  wifi doc w =
      let (d, line) = wifi_run doc w.dev in
      maybe_rxack dev (send dev (snprintf 1024 line) (record w { dev = d }))
