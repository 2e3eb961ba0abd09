-- ===== src/Info/Service.antt =====
-- `ServicePublisherInfo` of include/trans/details/publisher_info.hpp and src/publisher_info.cc.
use rf_trans_v.Base.{String, Bool, ◌&&◌, str_eq}
use rf_trans_v.Options.{AdvertiseServiceOptions, default_service_options}
use rf_trans_v.Wire.{Msg, publisher, srv_pub, contents_pub, type_srv_pub}
use rf_trans_v.Info.{PublisherInfo, default_info, make_info, info_eq, fill_info, read_info}

pub record ServicePublisherInfo : Type 0 where
  pub info : PublisherInfo
  pub open info use *
  pub socket_id : String
  pub req_type_name : String
  pub rep_type_name : String
  pub srv_opts : AdvertiseServiceOptions

abbrev pub default_service_info : ServicePublisherInfo
default_service_info = record {
  info = default_info;
  socket_id = "";
  req_type_name = "";
  rep_type_name = "";
  srv_opts = default_service_options;
}

abbrev pub make_service_info :
    String
    → String
    → String
    → String
    → String
    → String
    → String
    → AdvertiseServiceOptions
    → ServicePublisherInfo
make_service_info topic addr socket_id process_uuid node_uuid req_type rep_type opts = record {
  info = make_info topic addr process_uuid node_uuid opts.options;
  socket_id = socket_id;
  req_type_name = req_type;
  rep_type_name = rep_type;
  srv_opts = opts;
}

-- `operator==`
unfoldable pub service_info_eq : ServicePublisherInfo → ServicePublisherInfo → Bool
unfolding info_eq
service_info_eq a b =
    info_eq a.info b.info
    && str_eq a.socket_id b.socket_id
    && str_eq a.req_type_name b.req_type_name
    && str_eq a.rep_type_name b.rep_type_name

-- `ServicePublisherInfo::setOptions`
unfoldable pub set_service_options :
    AdvertiseServiceOptions → ServicePublisherInfo → ServicePublisherInfo
set_service_options o p = record p { srv_opts = o }

-- `ServicePublisherInfo::fillDiscovery`
unfoldable pub fill_service_info : ServicePublisherInfo → Msg → Msg
unfolding fill_info
fill_service_info p m =
    let filled = fill_info p.info m in
    record filled {
      contents = publisher (record (contents_pub filled.contents) {
        pub_type = srv_pub (record {
          socket_id = p.socket_id;
          request_type = p.req_type_name;
          response_type = p.rep_type_name;
        });
      });
    }

-- `ServicePublisherInfo::setFromDiscovery`
unfoldable pub read_service_info : Msg → ServicePublisherInfo → ServicePublisherInfo
unfolding read_info
read_service_info m p =
    let base = read_info m p.info in
    let sent = type_srv_pub (contents_pub m.contents).pub_type in
    record {
      info = base;
      socket_id = sent.socket_id;
      req_type_name = sent.request_type;
      rep_type_name = sent.response_type;
      srv_opts = record { options = record p.srv_opts.options { scope = base.opts.scope } };
    }
