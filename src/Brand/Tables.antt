-- ===== src/Brand/Tables.antt =====
-- The tables of internal/analysis/brand.go: brands, lookalikes and top-level domains.
use safe_road.Base.{ℕ, List, [], ◌∷◌, Text, codes}

pub record Brand : Type 0 where
  pub name : Text
  pub official_domain : Text
  pub alt_domains : List Text

abbrev pub trusted_brands : List Brand
trusted_brands =
    record {
      name = codes "google";
      official_domain = codes "google.com";
      alt_domains = codes "google.com.vn" ∷ codes "google.co.uk" ∷ codes "google.com.sg" ∷ [];
    }
    ∷ record {
      name = codes "binance";
      official_domain = codes "binance.com";
      alt_domains = codes "binance.us" ∷ codes "binance.info" ∷ [];
    }
    ∷ record {
      name = codes "paypal";
      official_domain = codes "paypal.com";
      alt_domains = codes "paypal.me" ∷ [];
    }
    ∷ record {
      name = codes "facebook";
      official_domain = codes "facebook.com";
      alt_domains = codes "fb.com" ∷ codes "messenger.com" ∷ [];
    }
    ∷ record {
      name = codes "apple";
      official_domain = codes "apple.com";
      alt_domains = codes "icloud.com" ∷ [];
    }
    ∷ record {
      name = codes "microsoft";
      official_domain = codes "microsoft.com";
      alt_domains = codes "live.com" ∷ codes "outlook.com" ∷ codes "office.com" ∷ [];
    }
    ∷ record { name = codes "amazon"; official_domain = codes "amazon.com"; alt_domains = [] }
    ∷ record { name = codes "netflix"; official_domain = codes "netflix.com"; alt_domains = [] }
    ∷ record { name = codes "instagram"; official_domain = codes "instagram.com"; alt_domains = [] }
    ∷ record {
      name = codes "twitter";
      official_domain = codes "twitter.com";
      alt_domains = codes "x.com" ∷ [];
    }
    ∷ record { name = codes "metamask"; official_domain = codes "metamask.io"; alt_domains = [] }
    ∷ record { name = codes "coinbase"; official_domain = codes "coinbase.com"; alt_domains = [] }
    ∷ record {
      name = codes "trustwallet";
      official_domain = codes "trustwallet.com";
      alt_domains = [];
    }
    ∷ record { name = codes "yahoo"; official_domain = codes "yahoo.com"; alt_domains = [] }
    ∷ record { name = codes "linkedin"; official_domain = codes "linkedin.com"; alt_domains = [] }
    ∷ record {
      name = codes "chinhphu";
      official_domain = codes "chinhphu.vn";
      alt_domains = codes "chinhphu.gov.vn" ∷ [];
    }
    ∷ record {
      name = codes "bocongan";
      official_domain = codes "bocongan.gov.vn";
      alt_domains = codes "mps.gov.vn" ∷ [];
    }
    ∷ record {
      name = codes "baohiemxahoi";
      official_domain = codes "baohiemxahoi.gov.vn";
      alt_domains = codes "bhxh.gov.vn" ∷ [];
    }
    ∷ record { name = codes "vtv"; official_domain = codes "vtv.vn"; alt_domains = [] }
    ∷ record {
      name = codes "vietcombank";
      official_domain = codes "vietcombank.com.vn";
      alt_domains = codes "vietcombank.com" ∷ [];
    }
    ∷ record {
      name = codes "techcombank";
      official_domain = codes "techcombank.com.vn";
      alt_domains = codes "techcombank.com" ∷ [];
    }
    ∷ record {
      name = codes "bidv";
      official_domain = codes "bidv.com.vn";
      alt_domains = codes "bidv.com" ∷ [];
    }
    ∷ record {
      name = codes "vietinbank";
      official_domain = codes "vietinbank.vn";
      alt_domains = codes "vietinbank.co.vn" ∷ [];
    }
    ∷ record {
      name = codes "mbbank";
      official_domain = codes "mbbank.com.vn";
      alt_domains = codes "mbbank.com" ∷ [];
    }
    ∷ record {
      name = codes "agribank";
      official_domain = codes "agribank.com.vn";
      alt_domains = codes "agribank.com" ∷ [];
    }
    ∷ record {
      name = codes "vpbank";
      official_domain = codes "vpbank.com.vn";
      alt_domains = codes "vpbank.com" ∷ [];
    }
    ∷ record {
      name = codes "acb";
      official_domain = codes "acb.com.vn";
      alt_domains = codes "acb.com" ∷ [];
    }
    ∷ record {
      name = codes "sacombank";
      official_domain = codes "sacombank.com.vn";
      alt_domains = codes "sacombank.com" ∷ [];
    }
    ∷ record {
      name = codes "tpbank";
      official_domain = codes "tpb.vn";
      alt_domains = codes "tpbank.com.vn" ∷ [];
    }
    ∷ record { name = codes "vib"; official_domain = codes "vib.com.vn"; alt_domains = [] }
    ∷ record { name = codes "hdbank"; official_domain = codes "hdbank.com.vn"; alt_domains = [] }
    ∷ record { name = codes "shb"; official_domain = codes "shb.com.vn"; alt_domains = [] }
    ∷ record { name = codes "scb"; official_domain = codes "scb.com.vn"; alt_domains = [] }
    ∷ []

abbrev pub homoglyph_map : List (ℕ × ℕ)
homoglyph_map =
    (0x430, b'a')
    ∷ (0x431, b'b')
    ∷ (0x441, b'c')
    ∷ (0x501, b'd')
    ∷ (0x435, b'e')
    ∷ (0x66, b'f')
    ∷ (0x67, b'g')
    ∷ (0x4BB, b'h')
    ∷ (0x456, b'i')
    ∷ (0x458, b'j')
    ∷ (0x6B, b'k')
    ∷ (0x6C, b'l')
    ∷ (0x6D, b'm')
    ∷ (0x43F, b'n')
    ∷ (0x43E, b'o')
    ∷ (0x440, b'p')
    ∷ (0x71, b'q')
    ∷ (0x433, b'r')
    ∷ (0x455, b's')
    ∷ (0x442, b't')
    ∷ (0x3C5, b'u')
    ∷ (0x475, b'v')
    ∷ (0x51D, b'w')
    ∷ (0x445, b'x')
    ∷ (0x443, b'y')
    ∷ (0x7A, b'z')
    ∷ (0x410, b'a')
    ∷ (0x412, b'b')
    ∷ (0x421, b'c')
    ∷ (0x415, b'e')
    ∷ (0x41D, b'h')
    ∷ (0x406, b'i')
    ∷ (0x408, b'j')
    ∷ (0x41A, b'k')
    ∷ (0x41C, b'm')
    ∷ (0x41E, b'o')
    ∷ (0x420, b'p')
    ∷ (0x405, b's')
    ∷ (0x422, b't')
    ∷ (0x425, b'x')
    ∷ (0x4AE, b'y')
    ∷ (0x3B1, b'a')
    ∷ (0x3B2, b'b')
    ∷ (0x3B5, b'e')
    ∷ (0x3B9, b'i')
    ∷ (0x3BA, b'k')
    ∷ (0x3BF, b'o')
    ∷ (0x3C1, b'p')
    ∷ (0x3C4, b't')
    ∷ (0x3C7, b'x')
    ∷ []

abbrev pub suspicious_tlds : List Text
suspicious_tlds =
    codes "xyz"
    ∷ codes "top"
    ∷ codes "cc"
    ∷ codes "info"
    ∷ codes "work"
    ∷ codes "club"
    ∷ codes "fit"
    ∷ codes "vip"
    ∷ codes "cf"
    ∷ codes "gq"
    ∷ codes "ga"
    ∷ codes "ml"
    ∷ codes "tk"
    ∷ codes "icu"
    ∷ codes "asia"
    ∷ codes "buzz"
    ∷ codes "bid"
    ∷ []
