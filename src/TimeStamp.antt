-- ===== src/TimeStamp.antt =====
-- media/js/cometd/TimeStampExtension.js. The date, as the browser writes it, is a parameter.
use vurs.Prelude.{String}
use vurs.Value.{Object, str, put}

unfoldable pub outgoing : String → Object → Object
outgoing date m = put "timestamp" (str date) m
